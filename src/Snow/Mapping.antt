-- ===== src/Snow/Mapping.antt =====
-- The mapping of the network cards to their static addresses.
use native.Mathlib.Decide.{dec_lt}
use eks_anywhere_build_tooli.Prelude.{
  ℕ, zero, suc, ◌+◌, ◌≤◌, ◌<◌, String, ◌≡◌, refl, sym, ap, ◌≢◌, ◌⊎◌, inl, inr, true, false, none,
  some, List, [], ◌∷◌, arith, ◌==◌, nat_beq_iff, nat_eq, string_eq, ltb, Bool-cases, length,
}
use eks_anywhere_build_tooli.Prelude.Int.{ℤ, pos, negsuc, same_int, same_int_iff}
use eks_anywhere_build_tooli.Prelude.Outcome.{ok}
use eks_anywhere_build_tooli.Snow.Network.{
  index, static_ip_of, map_dnis, same_count, fewer, mapping_of, StaticIp, Network, NetworkMapping,
}

-- Every card without a static address; and the cards with the addresses, in order.
abbrev pub dynamic : List String → List NetworkMapping
dynamic [] = []
dynamic (name ∷ names) = record { dni = name; static_ip = none } ∷ dynamic names

abbrev pub paired : List String → List StaticIp → List NetworkMapping
paired [] ips = []
paired (name ∷ names) [] = []
paired (name ∷ names) (ip ∷ ips) = record { dni = name; static_ip = some ip } ∷ paired names ips

abbrev drop : ℕ → List StaticIp → List StaticIp
drop zero ips = ips
drop (suc i) [] = []
drop (suc i) (ip ∷ ips) = drop i ips

map_dnis-dynamic : (i : ℕ) (names : List String) → map_dnis [] i names ≡ ok (dynamic names)
unfolding map_dnis static_ip_of
map_dnis-dynamic i [] = refl
map_dnis-dynamic i (name ∷ names) = rw (map_dnis-dynamic (suc i) names) refl

-- The address at an index that is in range.
index-drop :
    (ips : List StaticIp) (i : ℕ)
    → i < length ips
    → (ip : StaticIp) × (index ips i ≡ ok ip) × (drop i ips ≡ ip ∷ drop (suc i) ips)
index-drop [] i lt = absurd (omega arith)
index-drop (ip ∷ ips) zero lt = (ip, refl, refl)
index-drop (ip ∷ ips) (suc i) lt = index-drop ips i (omega arith)

map_dnis-paired :
    (ip : StaticIp) (ips : List StaticIp) (i : ℕ) (names : List String)
    → i + length names ≤ length (ip ∷ ips)
    → map_dnis (ip ∷ ips) i names ≡ ok (paired names (drop i (ip ∷ ips)))
unfolding map_dnis static_ip_of
map_dnis-paired ip ips i [] le = refl
map_dnis-paired ip ips i (name ∷ names) le =
    let (x, at, rest) = index-drop (ip ∷ ips) i (omega arith) in
    rw (at, rest, map_dnis-paired ip ips (suc i) names (omega arith)) refl

-- What the mapping ought to be: no card without its address where there are addresses.
abbrev pub expected : List String → List StaticIp → List NetworkMapping
expected names [] = dynamic names
expected names (ip ∷ ips) = paired names (ip ∷ ips)

ltb-pos : (n : ℕ) → 0 < n → ltb 0 n ≡ true
ltb-pos n p = ground arith

cons_not_nil : {x : StaticIp} {xs : List StaticIp} → x ∷ xs ≢ []
cons_not_nil = cc

same_count-pos : (n : ℕ) → same_count n (pos n) ≡ true
unfolding same_count
same_count-pos n = ground arith

same_count-other : (n : ℕ) (z : ℤ) → z ≢ pos n → same_count n z ≡ false
unfolding same_count
same_count-other n (pos k) d = elim (Bool-cases (n == k)) [
  | inl e ↦ absurd (d (ap pos (sym ((nat_beq_iff n k).0 e))))
  | inr e ↦ e
]
same_count-other n (negsuc k) d = refl

fewer-enough : (n k : ℕ) → k ≤ n → fewer n (pos k) ≡ false
unfolding fewer
fewer-enough n k le = ground arith

fewer-few : (n k : ℕ) → n < k → fewer n (pos k) ≡ true
unfolding fewer
fewer-few n k lt = ground arith

pub mapping_of_ok :
    (names : List String) (network : Network) (ips : List StaticIp)
    → network.static ≡ ips
    → network.dni_count ≡ pos (length names)
    → ((ips ≡ []) ⊎ (length names ≤ length ips))
    → mapping_of names (some network) ≡ ok (expected names ips)
unfolding mapping_of
mapping_of_ok names network [] s c e =
    rw (s, c, same_count-pos (length names), map_dnis-dynamic 0 names) refl
mapping_of_ok names network (ip ∷ ips) s c (inl e) = absurd (cons_not_nil e)
mapping_of_ok names network (ip ∷ ips) s c (inr e) =
    rw
      (
        s,
        c,
        same_count-pos (length names),
        ltb-pos (length (ip ∷ ips)) (omega arith),
        fewer-enough (length (ip ∷ ips)) (length names) e,
        map_dnis-paired ip ips 0 names (omega arith),
      )
      refl

-- Without that, the errors of the code wrap the nil error of the call before.
mapping_of_mismatch :
    (names : List String) (network : Network)
    → (network.dni_count ≢ pos (length names))
      ⊎ ((network.dni_count ≡ pos (length names))
          × (0 < length network.static)
          × (length network.static < length names))
    → mapping_of names (some network) ≡ ok []
unfolding mapping_of
mapping_of_mismatch names network (inl d) =
    rw (same_count-other (length names) network.dni_count d) refl
mapping_of_mismatch names network (inr (c, p, f)) =
    rw
      (
        c,
        same_count-pos (length names),
        fewer-few (length network.static) (length names) f,
        ltb-pos (length network.static) p,
      )
      refl

-- The network file fits the cards: it has their number, and no static address or one for each card.
abbrev pub Fits : List String → Network → Type 0
Fits names network =
    (network.dni_count ≡ pos (length names))
    × ((network.static ≡ []) ⊎ (length names ≤ length network.static))

-- Static addresses for some cards only
few :
    (names : List String) (ips : List StaticIp)
    → ((ips ≡ []) ⊎ (length names ≤ length ips))
      ⊎ ((ips ≢ []) × (0 < length ips) × (length ips < length names))
few names [] = inl (inl refl)
few names (ip ∷ ips) = elim (dec_lt (length (ip ∷ ips)) (length names)) [
  | yes lt ↦ inr (cons_not_nil, omega arith, lt)
  | no ge ↦ inl (inr (omega arith))
]

-- The mapping of a network file never fails, and reads no static address that is not there. If the
-- file fits the cards, every card is mapped, in order, to the static address of its place, or to none
-- where the file has none; if it does not fit, no card is mapped, and there is no error.
pub mapping_of_total :
    (names : List String) (network : Network)
    → (Fits names network × (mapping_of names (some network) ≡ ok (expected names network.static)))
      ⊎ ((¬ Fits names network) × (mapping_of names (some network) ≡ ok []))
mapping_of_total names network =
    elim (Bool-cases (same_int network.dni_count (pos (length names)))) [
      | inl e ↦
          counted ((same_int_iff network.dni_count (pos (length names))).0 e)
            (few names network.static)
      | inr e ↦
          (let differ : network.dni_count ≢ pos (length names) = (λ d.
              let x = (same_int_iff network.dni_count (pos (length names))).1 d in absurd cc) in
            inr ((λ f. differ f.0), mapping_of_mismatch names network (inl differ)))
    ]
  where
    counted :
        network.dni_count ≡ pos (length names)
        → ((network.static ≡ []) ⊎ (length names ≤ length network.static))
          ⊎ ((network.static ≢ [])
              × (0 < length network.static)
              × (length network.static < length names))
        → (Fits names network
            × (mapping_of names (some network) ≡ ok (expected names network.static)))
          ⊎ ((¬ Fits names network) × (mapping_of names (some network) ≡ ok []))
    counted c (inl fit) = inl ((c, fit), mapping_of_ok names network network.static refl c fit)
    counted c (inr (some_ip, p, lt)) =
        inr (unfit, mapping_of_mismatch names network (inr (c, p, lt)))
      where
        unfit : ¬ Fits names network
        unfit (c', inl e) = some_ip e
        unfit (c', inr le) = absurd (omega arith)
