-- ===== src/Sse/Frames.antt =====
-- The reading loop as a relation: enough fuel, and what later text does to what was read.
use claw_work.Prelude.{
  ℕ, suc, Bool-cases, List, Option, Text, [], arith, inl, inr, length, none, refl, some, zero, ◌&&◌,
  ◌++◌, ◌+◌, ◌<◌, ◌==◌, ◌∷◌, ◌≡◌, ◌≤◌, Option-cases, ap, subst,
}
use claw_work.Sse.{lf, cut, keep_unit, drain_fuel, drain}

-- The frames and the rest that the loop gives for a buffer.
pub data Drains : Text → List Text → Text → Type 0 where
  stop : {b : Text} → cut b ≡ none → Drains b [] b
  take :
      {b b' raw r : Text} {raws : List Text}
      → cut b ≡ some (raw, b')
      → Drains b' raws r
      → Drains b (raw ∷ raws) r

keep_unit-eq-some :
    (c : ℕ) (o : Option (Text × Text)) {s t : Text}
    → keep_unit c o ≡ some (s, t)
    → (s' : Text) × (o ≡ some (s', t)) × (s ≡ c ∷ s')
keep_unit-eq-some c none h = cc
keep_unit-eq-some c (some (s', t')) h = (s', ground arith, ground arith)

cut-length : (b : Text) {s t : Text} → cut b ≡ some (s, t) → length t + 2 ≤ length b
unfolding cut
cut-length [] h = cc
cut-length (c ∷ []) h = cc
cut-length (c ∷ d ∷ b) h = elim (Bool-cases (c == lf && d == lf)) [
  | inl y ↦ ground arith
  | inr n ↦
      let (s', e, _) = keep_unit-eq-some c (cut (d ∷ b)) (rw n at h) in
      omega (arith, cut-length (d ∷ b) e)
]

pub cut-append : (b c : Text) {s t : Text} → cut b ≡ some (s, t) → cut (b ++ c) ≡ some (s, t ++ c)
unfolding cut
cut-append [] u h = cc
cut-append (c ∷ []) u h = cc
cut-append (c ∷ d ∷ b) u h = elim (Bool-cases (c == lf && d == lf)) [
  | inl y ↦ rw y (ground arith)
  | inr n ↦
      let (s', e, f) = keep_unit-eq-some c (cut (d ∷ b)) (rw n at h) in
      ground (arith, cut-append (d ∷ b) u e)
]

drain_fuel-Drains :
    (fuel : ℕ) (b : Text) → length b < fuel → Drains b (drain_fuel fuel b).0 (drain_fuel fuel b).1
unfolding drain_fuel
drain_fuel-Drains zero b h = elim h [ ]
drain_fuel-Drains (suc fuel) b h = elim (Option-cases (cut b)) [
  | inl e ↦ rw (e, drain_fuel) (stop e)
  | inr ((raw, b'), e) ↦
      let k : length b' < fuel = omega (arith, cut-length b e) in
      rw (e, drain_fuel) (take e (drain_fuel-Drains fuel b' k))
]

pub drain-Drains : (b : Text) → Drains b (drain b).0 (drain b).1
unfolding drain
drain-Drains b = drain_fuel-Drains (suc (length b)) b (omega arith)

pub Drains-append :
    {b r r' : Text} {raws raws' : List Text} (c : Text)
    → Drains b raws r
    → Drains (r ++ c) raws' r'
    → Drains (b ++ c) (raws ++ raws') r'
Drains-append c (stop e) k = k
Drains-append c (take e d) k = take (cut-append _ c e) (Drains-append c d k)

pub Drains_unique :
    {b r r' : Text} {raws raws' : List Text}
    → Drains b raws r
    → Drains b raws' r'
    → ◌≡◌ {A = List Text × Text} (raws, r) (raws', r')
Drains_unique (stop e) (stop e') = refl
Drains_unique (stop e) (take e' d') = cc
Drains_unique (take e d) (stop e') = cc
Drains_unique {r' = r'} {raws' = x' ∷ ws} (take {b' = y} {raw = x} e d) (take {b' = y'} e' d') =
    let p : y' ≡ y = cc in
    let px : x' ≡ x = cc in
    let q = Drains_unique d (subst (λ t. Drains t ws r') p d') in
    rw px (ap (λ (w : List Text × Text). (x ∷ w.0, w.1)) q)
