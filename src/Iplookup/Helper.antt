-- ===== src/Iplookup/Helper.antt =====
-- iplookup/helper.go. The lock makes each method one step. Parsing and printing of addresses is Go's
-- `net` and `strings`, a `Net` here.
pub mod Stored
pub mod Sound
pub mod Hosts
use traefik_middleware_utili.Prelude.{
  ℕ, Bool, Bytes, Option, [], codes, false, if◌then◌else◌, none, some, true, ◌++◌, ◌+◌, ◌-◌, ◌==◌,
  ◌||◌, ◌∷◌,
}
use traefik_middleware_utili.Prelude.Result.{Result, err, ok, ◌>>=◌}
use traefik_middleware_utili.Iplookup.Address.{Block, to4, is_some}
use traefik_middleware_utili.Iplookup.Tree.{Tree, Found, contains, empty_node, insert, remove}

-- `net.ParseCIDR`, `net.ParseIP`, `IP.String` and `strings.TrimSpace`.
pub record Net : Type 0 where
  pub parse_cidr : Bytes → Option Block
  pub parse_ip : Bytes → Option Bytes
  pub ip_string : Bytes → Bytes
  pub trim_space : Bytes → Bytes

-- `index_panic` is Go's panic on an index out of range.
pub data Error : Type 0 where
  bad_cidr bad_entry nil_ip index_panic : Error

pub record Helper : Type 0 where
  pub ipv4_tree : Tree
  pub ipv6_tree : Tree
  pub count : ℕ

unfoldable pub new_helper : Helper
new_helper = record { ipv4_tree = empty_node; ipv6_tree = empty_node; count = 0 }

abbrev pub is_v4 : Bytes → Bool
is_v4 ip = is_some (to4 ip)

abbrev pub tree_for : Bool → Helper → Tree
tree_for true h = h.ipv4_tree
tree_for false h = h.ipv6_tree

abbrev pub with_tree : Bool → Tree → Helper → Helper
with_tree true t h = record h { ipv4_tree = t }
with_tree false t h = record h { ipv6_tree = t }

abbrev pub count_added : Bool → Helper → Helper
count_added true h = record h { count = h.count + 1 }
count_added false h = h

abbrev pub after_insert : Bool → Helper → Option (Tree × Bool) → Result Error Helper
after_insert v4 h none = err index_panic
after_insert v4 h (some (t, added)) = ok (count_added added (with_tree v4 t h))

unfoldable pub add_block : Block → Bytes → Helper → Result Error Helper
add_block b metadata h = after_insert (is_v4 b.ip) h (insert b metadata (tree_for (is_v4 b.ip) h))

-- The helper after a removal, and `removed`.
abbrev pub after_remove : Bool → Helper → Option (Tree × Bool) → Result Error (Helper × Bool)
after_remove v4 h none = err index_panic
after_remove v4 h (some (t, false)) = ok (with_tree v4 t h, false)
after_remove v4 h (some (t, true)) = ok (record (with_tree v4 t h) { count = h.count - 1 }, true)

unfoldable pub remove_block : Block → Helper → Result Error (Helper × Bool)
remove_block b h = after_remove (is_v4 b.ip) h (remove b (tree_for (is_v4 b.ip) h))

abbrev pub parsed {ℓ} :
    {A : Type ℓ} → Error → Option Block → (Block → Result Error A) → Result Error A
parsed e none k = err e
parsed e (some b) k = k b

unfoldable pub add_cidr : Net → Bytes → Bytes → Helper → Result Error Helper
add_cidr net cidr metadata h = parsed bad_cidr (net.parse_cidr cidr) (λ b. add_block b metadata h)

unfoldable pub remove_cidr : Net → Bytes → Helper → Result Error (Helper × Bool)
remove_cidr net cidr h = parsed bad_cidr (net.parse_cidr cidr) (λ b. remove_block b h)

abbrev pub host_text : Net → Bytes → Option Bytes → Bytes
host_text net ip (some v4) = net.ip_string v4 ++ codes "/32"
host_text net ip none = net.ip_string ip ++ codes "/128"

unfoldable pub host_cidr : Net → Bytes → Bytes
host_cidr net ip = host_text net ip (to4 ip)

-- `strings.IndexByte(s, '/') >= 0`.
abbrev pub has_slash : Bytes → Bool
has_slash [] = false
has_slash (c ∷ cs) = c == b'/' || has_slash cs

abbrev pub host_entry : Net → Option Bytes → Result Error Bytes
host_entry net none = err bad_entry
host_entry net (some ip) = ok (host_cidr net ip)

unfoldable pub entry_cidr : Net → Bytes → Result Error Bytes
entry_cidr net entry =
    let trimmed = net.trim_space entry in
    if has_slash trimmed then ok trimmed else host_entry net (net.parse_ip trimmed)

unfoldable pub add_entry : Net → Bytes → Bytes → Helper → Result Error Helper
add_entry net entry metadata h = do cidr ← entry_cidr net entry; add_cidr net cidr metadata h

abbrev pub found_or_panic : Option Found → Result Error Found
found_or_panic none = err index_panic
found_or_panic (some f) = ok f

-- A nil slice is `none`.
unfoldable pub contains_ip : Option Bytes → Helper → Result Error Found
contains_ip none h = err nil_ip
contains_ip (some ip) h = found_or_panic (contains ip (tree_for (is_v4 ip) h))

unfoldable pub reset : Helper → Helper
reset h = record { ipv4_tree = empty_node; ipv6_tree = empty_node; count = 0 }
