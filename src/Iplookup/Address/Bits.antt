-- ===== src/Iplookup/Address/Bits.antt =====
-- The bits of an address, in order, against `bitAt`.
use native.Mathlib.Nat.{add-zero}
use traefik_middleware_utili.Prelude.{
  ℕ, Bool, Bytes, List, [], ap, arith, get_elem?, length, refl, some, suc, sym, take, zero, ◌%◌,
  ◌*◌, ◌++◌, ◌+◌, ◌/◌, ◌==◌, ◌∙◌, ◌∷◌, ◌≡◌, Option, none,
}
use traefik_middleware_utili.Iplookup.Address.{bit_at, bit_of}

abbrev pub byte_bits : ℕ → List Bool
byte_bits c =
    ((c / 128) % 2 == 1)
    ∷ ((c / 64) % 2 == 1)
    ∷ ((c / 32) % 2 == 1)
    ∷ ((c / 16) % 2 == 1)
    ∷ ((c / 8) % 2 == 1)
    ∷ ((c / 4) % 2 == 1)
    ∷ ((c / 2) % 2 == 1)
    ∷ (c % 2 == 1)
    ∷ []

-- Eight bits a byte, the most significant first.
unfoldable pub address_bits : Bytes → List Bool
address_bits [] = []
address_bits (c ∷ cs) = byte_bits c ++ address_bits cs

pub length-address_bits : (ip : Bytes) → length (address_bits ip) ≡ 8 * length ip
unfolding address_bits
length-address_bits [] = refl
length-address_bits (c ∷ cs) = omega (arith, length-address_bits cs)

bit_of_mod : (i j : ℕ) (byte : Option ℕ) → i % 8 ≡ j % 8 → bit_of i byte ≡ bit_of j byte
bit_of_mod i j none e = refl
bit_of_mod i j (some byte) e = rw e

bit_at-cons : (c : ℕ) (cs : Bytes) (i j : ℕ) → i ≡ j + 8 → bit_at (c ∷ cs) i ≡ bit_at cs j
unfolding bit_at
bit_at-cons c cs i j e =
    let q : i / 8 ≡ suc (j / 8) = omega arith in
    rw q (bit_of_mod i j (get_elem? cs (j / 8)) (omega arith))

-- `bitAt` reads the bits in their order, and panics exactly behind the last one.
pub bit_at-address_bits : (ip : Bytes) (i : ℕ) → bit_at ip i ≡ get_elem? (address_bits ip) i
unfolding address_bits
bit_at-address_bits [] i = unfold bit_at in refl
bit_at-address_bits (c ∷ cs) zero = unfold bit_at in refl
bit_at-address_bits (c ∷ cs) (suc zero) = unfold bit_at in refl
bit_at-address_bits (c ∷ cs) (suc (suc zero)) = unfold bit_at in refl
bit_at-address_bits (c ∷ cs) (suc (suc (suc zero))) = unfold bit_at in refl
bit_at-address_bits (c ∷ cs) (suc (suc (suc (suc zero)))) = unfold bit_at in refl
bit_at-address_bits (c ∷ cs) (suc (suc (suc (suc (suc zero))))) = unfold bit_at in refl
bit_at-address_bits (c ∷ cs) (suc (suc (suc (suc (suc (suc zero)))))) = unfold bit_at in refl
bit_at-address_bits (c ∷ cs) (suc (suc (suc (suc (suc (suc (suc zero))))))) =
    unfold bit_at in ap (λ (n : ℕ). some (n % 2 == 1)) (omega arith)
bit_at-address_bits (c ∷ cs) (suc (suc (suc (suc (suc (suc (suc (suc j)))))))) =
    bit_at-cons c cs _ j (omega arith) ∙ bit_at-address_bits cs j

-- The bits from `i` on are these.
abbrev pub Reads : Bytes → ℕ → List Bool → Type 0
Reads ip i [] = Unit {0}
Reads ip i (b ∷ bs) = (bit_at ip i ≡ some b) × Reads ip (i + 1) bs

Reads-from :
    (ip : Bytes) (i n : ℕ) (bs : List Bool)
    → ((j : ℕ) → get_elem? bs j ≡ bit_at ip (i + j))
    → Reads ip i (take n bs)
Reads-from ip i zero bs h = tt
Reads-from ip i (suc n) [] h = tt
Reads-from ip i (suc n) (b ∷ bs) h = (
  rw (← add-zero i) (sym (h 0)),
  Reads-from ip (i + 1) n bs λ j. h (suc j) ∙ ap (bit_at ip) (omega arith),
)

-- The first `n` bits of an address are read from position 0 on.
pub address_bits-Reads : (ip : Bytes) (n : ℕ) → Reads ip 0 (take n (address_bits ip))
address_bits-Reads ip n =
    Reads-from ip 0 n (address_bits ip)
      λ j. sym (bit_at-address_bits ip j) ∙ ap (bit_at ip) (omega arith)
