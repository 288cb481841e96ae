-- ===== src/Autoload/Shapes.antt =====
-- autoload/autoload.go: which instances a unit holds, and that Unload closes them all.
use egop.Prelude.{
  if_either, Text, Map, lookup, insert, count, ℕ, ◌+◌, Bool, Option-cases, true, false, not, List,
  [], ◌∷◌, In, here, there, lookup-In, In-insert_cases, Option, none, ◌≡◌, refl, sym, subst, ap,
  inl, inr, arith,
}
use egop.Autoload.{
  scan, HostFace, Load, FileUnit, new_unit, World, Watcher, sweep, unload_unit, unload_units,
  unload, registered, observe, unit_at, apply_seen, poll,
}
use egop.Autoload.Steps.{Runs, starts, polls, unloads, elsewhere}
use egop.Autoload.{Action}
use egop.Autoload.Changes.{
  Becomes, same, starts_using, uses, keeps, switches, gives_up, after_dropping, observe_cases,
}
use egop.Autoload.Sweeps.{Swept, unloaded, forgiven, missed, sweep_finds}
use egop.Autoload.Instances.{one, unit_holds, units_hold, close-counts}

-- A unit that is loaded has no instance that waits, and one that is not has none in use.
pub record IsShaped (u : FileUnit) : Type 0 where
  pub idle : u.loaded ≡ false → u.plugin ≡ none
  pub settled : u.loaded ≡ true → u.np ≡ none

abbrev pub AreShaped : Map FileUnit → Type 0
AreShaped units = (p : Text) (u : FileUnit) → In (p, u) units → IsShaped u

new-IsShaped : IsShaped new_unit
new-IsShaped = record { idle = λ e. refl; settled = λ e. refl }

unit_at-IsShaped :
    (p : Text) (units : Map FileUnit) → AreShaped units → IsShaped (unit_at (lookup p units))
unfolding unit_at
unit_at-IsShaped p units v = elim (Option-cases (lookup p units)) [
  | inl e ↦ subst (λ o. IsShaped (unit_at o)) (sym e) new-IsShaped
  | inr (u, e) ↦ subst (λ o. IsShaped (unit_at o)) (sym e) (v p u (lookup-In p units u e))
]

insert-AreShaped :
    (p : Text) (u : FileUnit) (units : Map FileUnit)
    → IsShaped u
    → AreShaped units
    → AreShaped (insert p u units)
insert-AreShaped p u units shaped v q x i = elim (In-insert_cases p u units i) [
  | inl (key, value) ↦ subst IsShaped (sym value) shaped
  | inr old ↦ v q x old
]

module _ {h : Text} where
  Becomes-IsShaped : {u u' : FileUnit} {a : Action} → Becomes h u u' a → IsShaped u → IsShaped u'
  unfolding registered
  Becomes-IsShaped same v = v
  Becomes-IsShaped (starts_using u np e n) v = record { idle = λ e'. cc; settled = λ e'. refl }
  Becomes-IsShaped (uses u id np e n) v = record { idle = λ e'. cc; settled = λ e'. n }
  Becomes-IsShaped (keeps u np e) v = record { idle = v.idle; settled = λ e'. cc }
  Becomes-IsShaped (switches u id np e) v = record { idle = λ e'. cc; settled = v.settled }
  Becomes-IsShaped (gives_up u err) v = record { idle = v.idle; settled = v.settled }
  Becomes-IsShaped (after_dropping b) v =
      Becomes-IsShaped b (record { idle = v.idle; settled = λ e. refl })

Swept-IsShaped :
    {seen : Map Text} {p : Text} {u v : FileUnit} → Swept seen p u v → IsShaped u → IsShaped v
Swept-IsShaped (unloaded l) s = s
Swept-IsShaped forgiven s = record { idle = s.idle; settled = s.settled }
Swept-IsShaped (missed l f e) s = record { idle = s.idle; settled = s.settled }

module _ {S : Type 0} (face : HostFace S) where
  sweep-AreShaped :
      (seen : Map Text) (units : Map FileUnit) (w : World S)
      → AreShaped units
      → AreShaped (sweep face seen units w).0
  sweep-AreShaped seen units w v q x i =
      let (u, old, s) = sweep_finds face seen units w q x i in Swept-IsShaped s (v q u old)

  module _ (load : Text → Text → Load) (read : Text → Option Text) where
    apply_seen-AreShaped :
        (seen : Map Text) (units : Map FileUnit) (w : World S)
        → AreShaped units
        → AreShaped (apply_seen face load read seen units w).0
    unfolding apply_seen
    apply_seen-AreShaped [] units w v = v
    apply_seen-AreShaped ((p, h) ∷ seen) units w v =
        let u = unit_at (lookup p units) in
        let shaped = unit_at-IsShaped p units v in
        let r = observe face load p h (read p) u w in
        apply_seen-AreShaped seen (insert p r.0 units) r.1 (
          insert-AreShaped p r.0 units
            (observe_cases face load p h IsShaped (read p) u w shaped
              (record { idle = shaped.idle; settled = shaped.settled })
              (λ u' a known b. Becomes-IsShaped b shaped))
            v)

  module _ (is_plugin_file : Text → Bool) (hash_bytes : Text → Text) where
    Runs-AreShaped :
        {seen : List (Map Text)} {s : Watcher S}
        → Runs face is_plugin_file hash_bytes seen s
        → AreShaped s.units
    unfolding poll unload
    Runs-AreShaped (starts host) = λ p u i. elim i [ ]
    Runs-AreShaped (polls {s = s} load read files r) =
        let m = scan is_plugin_file hash_bytes files [] in
        let swept = sweep face m s.units s.world in
        apply_seen-AreShaped load read m swept.0 swept.1
          (sweep-AreShaped m s.units s.world (Runs-AreShaped r))
    Runs-AreShaped (unloads r) = λ p u i. elim i [ ]
    Runs-AreShaped (elsewhere host r) = Runs-AreShaped r

  unit_closes :
      (u : FileUnit) (w : World S)
      → IsShaped u
      → (k : ℕ) → count k (unload_unit face u w).closed ≡ unit_holds k u + count k w.closed
  unfolding unload_unit
  unit_closes u w v k =
      if_either (λ (w' : World S). count k w'.closed ≡ unit_holds k u + count k w.closed)
        (not u.loaded)
        (λ e. omega (arith, close-counts k u.np w, ap (one k) (v.idle (ground arith))))
        (λ e. omega (
          arith,
          close-counts k u.plugin (record w { host = (face.remove u.id true w.host).0 }),
          ap (one k) (v.settled (ground arith)),
        ))

  units_close :
      (units : Map FileUnit) (w : World S)
      → AreShaped units
      → (k : ℕ) → count k (unload_units face units w).closed ≡ units_hold k units + count k w.closed
  unfolding unload_units units_hold
  units_close [] w v k = omega arith
  units_close ((p, u) ∷ units) w v k = omega (
    arith,
    unit_closes u w (v p u here) k,
    units_close units (unload_unit face u w) (λ q x i. v q x (there i)) k,
  )

-- Unload leaves no unit, and closes exactly the instances that the units held, those in use and those
-- that wait, each once, on every state that a run of the watcher leads to.
pub unload_closes :
    {S : Type 0} (face : HostFace S) (is_plugin_file : Text → Bool) (hash_bytes : Text → Text)
    {seen : List (Map Text)} {s : Watcher S}
    → Runs face is_plugin_file hash_bytes seen s
    → ((unload face s).units ≡ [])
      × ((k : ℕ)
          → count k (unload face s).world.closed ≡ units_hold k s.units + count k s.world.closed)
unfolding unload
unload_closes face f b {s = s} r =
    (refl, units_close face s.units s.world (Runs-AreShaped face f b r))
