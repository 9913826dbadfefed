-- ===== src/Windowcounter/Buffer/Heap.antt =====
-- windowcounter/limiter.go: the heap of windows, a write to one place, and the sum of the local deltas.
use traefik_middleware_utili.Prelude.{
  ℕ, List, [], ap, arith, length, refl, suc, zero, ◌+◌, ◌++◌, ◌<◌, ◌∷◌, ◌≡◌, ◌≢◌, ◌≤◌,
}
use traefik_middleware_utili.Windowcounter.Buffer.{WindowState, change, nth}

-- The hits that no flush has sent.
unfoldable pub total : List WindowState → ℕ
total [] = 0
total (w ∷ h) = w.local_delta + total h

abbrev pub Writing : Type 0
Writing = WindowState → WindowState

pub length-change : (i : ℕ) (f : Writing) (h : List WindowState) → length (change i f h) ≡ length h
unfolding change
length-change i f [] = refl
length-change zero f (w ∷ h) = refl
length-change (suc i) f (w ∷ h) = ap suc (length-change i f h)

pub nth-change :
    (i : ℕ) (f : Writing) (h : List WindowState) → i < length h → nth i (change i f h) ≡ f (nth i h)
unfolding change nth
nth-change i f [] l = absurd (omega (arith, l))
nth-change zero f (w ∷ h) l = refl
nth-change (suc i) f (w ∷ h) l = nth-change i f h (omega (arith, l))

pub nth-change_other :
    (i j : ℕ) (f : Writing) (h : List WindowState) → j ≢ i → nth j (change i f h) ≡ nth j h
unfolding change nth
nth-change_other i j f [] d = refl
nth-change_other zero zero f (w ∷ h) d = absurd (d refl)
nth-change_other zero (suc j) f (w ∷ h) d = refl
nth-change_other (suc i) zero f (w ∷ h) d = refl
nth-change_other (suc i) (suc j) f (w ∷ h) d = nth-change_other i j f h (λ q. d (ap suc q))

pub total-change :
    (i : ℕ) (f : Writing) (h : List WindowState)
    → i < length h
    → total (change i f h) + (nth i h).local_delta ≡ total h + (f (nth i h)).local_delta
unfolding change nth total
total-change i f [] l = absurd (omega (arith, l))
total-change zero f (w ∷ h) l = omega arith
total-change (suc i) f (w ∷ h) l = omega (arith, total-change i f h (omega (arith, l)))

-- A write that keeps the local delta keeps the sum.
pub total-change_same :
    (i : ℕ) (f : Writing) (h : List WindowState)
    → ((w : WindowState) → (f w).local_delta ≡ w.local_delta)
    → total (change i f h) ≡ total h
unfolding change total
total-change_same i f [] k = refl
total-change_same zero f (w ∷ h) k = omega (arith, k w)
total-change_same (suc i) f (w ∷ h) k = omega (arith, total-change_same i f h k)

pub flush-change_same :
    (i j : ℕ) (f : Writing) (h : List WindowState)
    → ((w : WindowState) → (f w).flush_delta ≡ w.flush_delta)
    → (nth j (change i f h)).flush_delta ≡ (nth j h).flush_delta
unfolding change nth
flush-change_same i j f [] k = refl
flush-change_same zero zero f (w ∷ h) k = k w
flush-change_same zero (suc j) f (w ∷ h) k = refl
flush-change_same (suc i) zero f (w ∷ h) k = refl
flush-change_same (suc i) (suc j) f (w ∷ h) k = flush-change_same i j f h k

pub local-change_same :
    (i j : ℕ) (f : Writing) (h : List WindowState)
    → ((w : WindowState) → (f w).local_delta ≡ w.local_delta)
    → (nth j (change i f h)).local_delta ≡ (nth j h).local_delta
unfolding change nth
local-change_same i j f [] k = refl
local-change_same zero zero f (w ∷ h) k = k w
local-change_same zero (suc j) f (w ∷ h) k = refl
local-change_same (suc i) zero f (w ∷ h) k = refl
local-change_same (suc i) (suc j) f (w ∷ h) k = local-change_same i j f h k

-- No more is in flight than is local.
abbrev pub HasEnough : WindowState → Type 0
HasEnough w = w.flush_delta ≤ w.local_delta

pub enough-change :
    (i : ℕ) (f : Writing) (h : List WindowState)
    → ((w : WindowState) → HasEnough w → HasEnough (f w))
    → ((j : ℕ) → HasEnough (nth j h))
    → (j : ℕ) → HasEnough (nth j (change i f h))
unfolding change nth
enough-change i f [] k e j = omega arith
enough-change zero f (w ∷ h) k e zero = k w (e zero)
enough-change zero f (w ∷ h) k e (suc j) = e (suc j)
enough-change (suc i) f (w ∷ h) k e zero = e zero
enough-change (suc i) f (w ∷ h) k e (suc j) = enough-change i f h k (λ n. e (suc n)) j

pub total-append :
    (h : List WindowState) (w : WindowState) → total (h ++ (w ∷ [])) ≡ total h + w.local_delta
unfolding total
total-append [] w = omega arith
total-append (v ∷ h) w = omega (arith, total-append h w)

pub length-append_one :
    (h : List WindowState) (w : WindowState) → length (h ++ (w ∷ [])) ≡ length h + 1
length-append_one [] w = refl
length-append_one (v ∷ h) w = omega (arith, length-append_one h w)

-- A place of a longer heap holds what it held, or the new window.
pub nth-append_cases :
    (P : WindowState → Type 0) (h : List WindowState) (w : WindowState)
    → P w
    → ((j : ℕ) → P (nth j h))
    → (j : ℕ) → P (nth j (h ++ (w ∷ [])))
unfolding nth
nth-append_cases P [] w p k zero = p
nth-append_cases P [] w p k (suc j) = k j
nth-append_cases P (v ∷ h) w p k zero = k zero
nth-append_cases P (v ∷ h) w p k (suc j) = nth-append_cases P h w p (λ n. k (suc n)) j

pub nth-append_before :
    (j : ℕ) (h : List WindowState) (w : WindowState)
    → j < length h
    → nth j (h ++ (w ∷ [])) ≡ nth j h
unfolding nth
nth-append_before j [] w l = absurd (omega (arith, l))
nth-append_before zero (v ∷ h) w l = refl
nth-append_before (suc j) (v ∷ h) w l = nth-append_before j h w (omega (arith, l))

-- There is no window behind the last one.
pub nth-length_zero : (h : List WindowState) → (nth (length h) h).local_delta ≡ 0
unfolding nth
nth-length_zero [] = refl
nth-length_zero (v ∷ h) = nth-length_zero h

pub nth-append_other :
    (j : ℕ) (h : List WindowState) (w : WindowState)
    → j ≢ length h
    → (nth j (h ++ (w ∷ []))).local_delta ≡ (nth j h).local_delta
unfolding nth
nth-append_other zero [] w d = absurd (d refl)
nth-append_other (suc j) [] w d = refl
nth-append_other zero (v ∷ h) w d = refl
nth-append_other (suc j) (v ∷ h) w d = nth-append_other j h w (λ q. d (ap suc q))
