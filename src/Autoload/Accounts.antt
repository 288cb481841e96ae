-- ===== src/Autoload/Accounts.antt =====
-- autoload/autoload.go: the account of the loaded instances over whole polls and runs.
use egop.Prelude.{
  if_either, Text, text_eq, Map, lookup, insert, has, count, ltb, ℕ, ◌+◌, ◌≤◌, Bool, Bool-cases,
  true, false, not, List, [], ◌∷◌, ◌++◌, Option, none, some, ◌≡◌, inl, inr, arith,
}
use egop.Autoload
use egop.Autoload.{
  Instance, HostFace, Load, load_failed, loaded_as, FileUnit, new_unit, World, Watcher,
  close_instance, removed, sweep_unit, sweep, unload_unit, unload_units, unload, registered,
  retry_register, register_first, retire_old, drop_new, re_identify, replace_version, load_content,
  read_content, apply_waiting, apply_change, with_event, observe, unit_at, apply_seen, poll,
}
use egop.Autoload.Steps.{Runs, starts, polls, unloads, elsewhere}
use egop.Autoload.Instances.{
  unit_holds, units_hold, born, Grows, Grows-refl, close-next, close-counts, observe-Grown,
}

born_trans : (k a b c : ℕ) → a ≤ b → b ≤ c → born k a b + born k b c ≡ born k a c
born_trans k a b c ab bc = ground arith

units_hold-append :
    (k : ℕ) (m n : Map FileUnit) → units_hold k (m ++ n) ≡ units_hold k m + units_hold k n
unfolding units_hold
units_hold-append k [] n = omega arith
units_hold-append k ((p, u) ∷ m) n = omega (arith, units_hold-append k m n)

units_hold-insert :
    (k : ℕ) (p : Text) (u : FileUnit) (m : Map FileUnit)
    → units_hold k (insert p u m) + unit_holds k (unit_at (lookup p m))
      ≡ units_hold k m + unit_holds k u
unfolding units_hold insert lookup unit_at
units_hold-insert k p u [] = omega arith
units_hold-insert k p u ((q, v) ∷ m) = elim (Bool-cases (text_eq q p)) [
  | inl e ↦ rw e (omega arith)
  | inr e ↦ rw e (omega (arith, units_hold-insert k p u m))
]

module _ {S : Type 0} where
  Grows-trans :
      {held held' held'' : ℕ → ℕ} {w w' w'' : World S}
      → Grows held w held' w'
      → Grows held' w' held'' w''
      → Grows held w held'' w''
  Grows-trans {w = w} {w' = w'} {w'' = w''} a b = record {
    later = omega (arith, a.later, b.later);
    kept = λ k.
        omega (arith, a.kept k, b.kept k, born_trans k w.next w'.next w''.next a.later b.later);
  }

  module _ (face : HostFace S) where
    abbrev UnitsGrown :
        Map FileUnit → World S → Map FileUnit × World S × List Autoload.Event → Type 0
    UnitsGrown units w r = Grows (λ k. units_hold k units) w (λ k. units_hold k r.0) r.1

    removed-Grown :
        (p : Text) (u : FileUnit) (answer : S × Option Text) (w : World S)
        → UnitsGrown ((p, u) ∷ []) w (removed face p u answer w)
    unfolding removed units_hold
    removed-Grown p u (host, some e) w = record { later = omega arith; kept = λ k. omega arith }
    removed-Grown p u (host, none) w = record {
      later = rw (close-next u.plugin (record w { host = host })) (omega arith);
      kept = λ k.
          rw (close-next u.plugin (record w { host = host }))
            (omega (arith, close-counts k u.plugin (record w { host = host })));
    }

    sweep_unit-Grown :
        (seen : Map Text) (p : Text) (u : FileUnit) (w : World S)
        → UnitsGrown ((p, u) ∷ []) w (sweep_unit face seen p u w)
    unfolding sweep_unit units_hold
    sweep_unit-Grown seen p u w =
        let P = UnitsGrown ((p, u) ∷ []) w in
        if_either P (not u.loaded) (λ e. Grows-refl _ w)
          (λ e.
            if_either P (has p seen) (λ e. Grows-refl _ w)
              (λ e.
                if_either P (ltb (u.misses + 1) 2) (λ e. Grows-refl _ w)
                  (λ e. removed-Grown p u (face.remove u.id false w.host) w)))

    sweep-Grown :
        (seen : Map Text) (units : Map FileUnit) (w : World S)
        → UnitsGrown units w (sweep face seen units w)
    unfolding sweep units_hold
    sweep-Grown seen [] w = Grows-refl _ w
    sweep-Grown seen ((p, u) ∷ units) w =
        let r = sweep_unit face seen p u w in
        let first = sweep_unit-Grown seen p u w in
        let others = sweep-Grown seen units r.1 in
        Grows-trans {held' = λ k. units_hold k r.0 + units_hold k units} {w' = r.1}
          (record { later = first.later; kept = λ k. omega (arith, first.kept k) })
          (record {
            later = others.later;
            kept = λ k.
                rw (units_hold-append k r.0 (sweep face seen units r.1).0)
                  (omega (arith, others.kept k));
          })

    module _ (load : Text → Text → Load) (read : Text → Option Text) where
      apply_seen-Grown :
          (seen : Map Text) (units : Map FileUnit) (w : World S)
          → UnitsGrown units w (apply_seen face load read seen units w)
      unfolding apply_seen
      apply_seen-Grown [] units w = Grows-refl _ w
      apply_seen-Grown ((p, h) ∷ seen) units w =
          let u = unit_at (lookup p units) in
          let r = observe face load p h (read p) u w in
          let first = observe-Grown face load p h (read p) u w in
          Grows-trans {held' = λ k. units_hold k (insert p r.0 units)} {w' = r.1}
            (record {
              later = first.later;
              kept = λ k. omega (arith, first.kept k, units_hold-insert k p r.0 units);
            })
            (apply_seen-Grown seen (insert p r.0 units) r.1)

      poll-Grown :
          (seen : Map Text) (s : Watcher S)
          → Grows
              (λ k. units_hold k s.units)
              s.world
              (λ k. units_hold k (poll face load read seen s).0.units)
              (poll face load read seen s).0.world
      unfolding poll
      poll-Grown seen s =
          let r = sweep face seen s.units s.world in
          Grows-trans (sweep-Grown seen s.units s.world) (apply_seen-Grown seen r.0 r.1)

    unload_unit-Grown :
        (u : FileUnit) (w : World S) → Grows (λ k. unit_holds k u) w (λ k. 0) (unload_unit face u w)
    unfolding unload_unit
    unload_unit-Grown u w =
        if_either (λ w'. Grows (λ k. unit_holds k u) w (λ k. 0) w') (not u.loaded)
          (λ e. record {
            later = rw (close-next u.np w) (omega arith);
            kept = λ k. rw (close-next u.np w) (omega (arith, close-counts k u.np w));
          })
          (λ e.
            let w' : World S = record w { host = (face.remove u.id true w.host).0 } in
            record {
              later = rw (close-next u.plugin w') (omega arith);
              kept = λ k. rw (close-next u.plugin w') (omega (arith, close-counts k u.plugin w'));
            })

    unload_units-Grown :
        (units : Map FileUnit) (w : World S)
        → Grows (λ k. units_hold k units) w (λ k. 0) (unload_units face units w)
    unfolding unload_units units_hold
    unload_units-Grown [] w = Grows-refl _ w
    unload_units-Grown ((p, u) ∷ units) w =
        let first = unload_unit-Grown u w in
        Grows-trans {held' = λ k. units_hold k units} {w' = unload_unit face u w}
          (record { later = first.later; kept = λ k. omega (arith, first.kept k) })
          (unload_units-Grown units (unload_unit face u w))

-- No instance is closed twice, or closed and still held, or held by two units or twice by one; what
-- is not loaded yet is neither.
pub record IsAccounted {S : Type 0} (s : Watcher S) : Type 0 where
  pub once : (k : ℕ) → units_hold k s.units + count k s.world.closed ≤ 1
  pub fresh : (k : ℕ) → s.world.next ≤ k → units_hold k s.units + count k s.world.closed ≡ 0

module _ {S : Type 0} where
  Grows-IsAccounted :
      (s t : Watcher S)
      → Grows (λ k. units_hold k s.units) s.world (λ k. units_hold k t.units) t.world
      → IsAccounted s
      → IsAccounted t
  Grows-IsAccounted s t g v = record {
    once = λ k. ground (arith, g.kept k, v.once k, v.fresh k);
    fresh = λ k above. ground (arith, g.kept k, v.fresh k, g.later);
  }

-- In every run of a watcher, on every host and whatever the files do, no instance that was loaded is
-- closed twice, and one that a unit still holds, in use or waiting for its dependencies, is held by
-- that unit alone and not closed.
pub Runs-IsAccounted :
    {S : Type 0} (face : HostFace S) (is_plugin_file : Text → Bool) (hash_bytes : Text → Text)
    {seen : List (Map Text)} {s : Watcher S}
    → Runs face is_plugin_file hash_bytes seen s
    → IsAccounted s
unfolding units_hold count unload
Runs-IsAccounted face f b (starts host) = record {
  once = λ k. omega arith;
  fresh = λ k above. omega arith;
}
Runs-IsAccounted face f b (polls {s = s} load read files r) =
    Grows-IsAccounted s _ (poll-Grown face load read _ s) (Runs-IsAccounted face f b r)
Runs-IsAccounted face f b (unloads {s = s} r) =
    Grows-IsAccounted s _ (unload_units-Grown face s.units s.world) (Runs-IsAccounted face f b r)
Runs-IsAccounted face f b (elsewhere host r) =
    let v = Runs-IsAccounted face f b r in record { once = v.once; fresh = v.fresh }
