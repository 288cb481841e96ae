-- ===== src/Autoload/Sweeps.antt =====
-- autoload/autoload.go: what the first half of a poll makes of the units.
use egop.Prelude.{
  if_either, Text, Map, has, ltb, ℕ, ◌+◌, true, false, not, List, [], ◌∷◌, In, In-append_cases,
  In-append_left, In-append_right, In-cons_cases, here, there, Option, none, some, ◌≡◌, ◌⊎◌, sym,
  subst, ap, inl, inr, arith,
}
use egop.Autoload
use egop.Autoload.{FileUnit, World, HostFace, removed, sweep_unit, sweep}

-- A unit that stays, before and after: it is not loaded, its file was seen or its removal refused, or
-- its file was missed for the first time.
pub data Swept (seen : Map Text) (p : Text) (u : FileUnit) : FileUnit → Type 0 where
  unloaded : u.loaded ≡ false → Swept seen p u u
  forgiven : Swept seen p u (record u { misses = 0 })
  missed :
      u.loaded ≡ true
      → u.misses ≡ 0
      → has p seen ≡ false
      → Swept seen p u (record u { misses = u.misses + 1 })

module _ {S : Type 0} (face : HostFace S) (seen : Map Text) where
  abbrev KeptIn : Text → FileUnit → Map FileUnit → Type 0
  KeptIn p u m = (q : Text) (v : FileUnit) → In (q, v) m → (q ≡ p) × Swept seen p u v

  abbrev Kept : Text → FileUnit → Map FileUnit × World S × List Autoload.Event → Type 0
  Kept p u r = KeptIn p u r.0

  one-Kept : (p : Text) (u v : FileUnit) → Swept seen p u v → KeptIn p u ((p, v) ∷ [])
  one-Kept p u v s q x i = elim (In-cons_cases i) [
    | inl e ↦ (ap (λ r. r.0) e, subst (Swept seen p u) (sym (ap (λ r. r.1) e)) s)
    | inr none_left ↦ elim none_left [ ]
  ]

  removed-Kept :
      (p : Text) (u : FileUnit) (answer : S × Option Text) (w : World S)
      → Kept p u (removed face p u answer w)
  unfolding removed
  removed-Kept p u (host, some e) w = one-Kept p u _ forgiven
  removed-Kept p u (host, none) w = λ q v i. elim i [ ]

  unit-Kept : (p : Text) (u : FileUnit) (w : World S) → Kept p u (sweep_unit face seen p u w)
  unfolding sweep_unit
  unit-Kept p u w =
      if_either (Kept p u) (not u.loaded) (λ e. one-Kept p u u (unloaded (ground arith)))
        (λ l.
          if_either (Kept p u) (has p seen) (λ e. one-Kept p u _ forgiven)
            (λ e.
              if_either (Kept p u) (ltb (u.misses + 1) 2)
                (λ few. one-Kept p u _ (missed (ground arith) (ground arith) e))
                (λ many. removed-Kept p u (face.remove u.id false w.host) w)))

  pub sweep_finds :
      (units : Map FileUnit) (w : World S) (q : Text) (v : FileUnit)
      → In (q, v) (sweep face seen units w).0
      → (u : FileUnit) × In (q, u) units × Swept seen q u v
  unfolding sweep
  sweep_finds [] w q v i = elim i [ ]
  sweep_finds ((p, u) ∷ units) w q v i =
      elim (In-append_cases (sweep_unit face seen p u w).0
        (sweep face seen units (sweep_unit face seen p u w).1).0 i) [
          | inl first ↦
              let (key, s) = unit-Kept p u w q v first in
              (
                u,
                subst (λ x. In (q, u) ((x, u) ∷ units)) key here,
                subst (λ x. Swept seen x u v) (sym key) s,
              )
          | inr later ↦ let (x, old, s) = sweep_finds units _ q v later in (x, there old, s)
        ]

  abbrev Stays : Text → Map FileUnit × World S × List Autoload.Event → Type 0
  Stays p r = (v : FileUnit) × In (p, v) r.0

  unit-Stays :
      (p : Text) (u : FileUnit) (w : World S)
      → (has p seen ≡ true) ⊎ (u.misses ≡ 0)
      → Stays p (sweep_unit face seen p u w)
  unfolding sweep_unit
  unit-Stays p u w why =
      if_either (Stays p) (not u.loaded) (λ e. (_, here))
        (λ l.
          if_either (Stays p) (has p seen) (λ e. (_, here))
            (λ e.
              if_either (Stays p) (ltb (u.misses + 1) 2) (λ few. (_, here))
                (λ many. elim why [ inl h ↦ cc | inr h ↦ elim (impossible u.misses h many) [ ] ])))
    where
      impossible : (n : ℕ) → n ≡ 0 → ltb (n + 1) 2 ≡ false → ⊥
      impossible n e f = ground arith

  pub sweep_keeps :
      (units : Map FileUnit) (w : World S) (q : Text) (u : FileUnit)
      → In (q, u) units
      → (has q seen ≡ true) ⊎ (u.misses ≡ 0)
      → Stays q (sweep face seen units w)
  unfolding sweep
  sweep_keeps [] w q u i why = elim i [ ]
  sweep_keeps ((p, x) ∷ units) w q u i why =
      let r = sweep_unit face seen p x w in
      elim (In-cons_cases i) [
        | inl e ↦
            let key : q ≡ p = ap (λ y. y.0) e in
            let value : u ≡ x = ap (λ y. y.1) e in
            let (v, j) = unit-Stays p x w (
              subst (λ y. (has y seen ≡ true) ⊎ (x.misses ≡ 0)) key
                (subst (λ y. (has q seen ≡ true) ⊎ (y.misses ≡ 0)) value why)) in
            (
              v,
              In-append_left (sweep face seen units r.1).0 (subst (λ y. In (y, v) r.0) (sym key) j),
            )
        | inr later ↦ let (v, j) = sweep_keeps units r.1 q u later why in (v, In-append_right r.0 j)
      ]
