-- ===== src/Autoload/Instances.antt =====
-- autoload/autoload.go: the loaded instances, and who closes them.
use egop.Prelude.{
  if_either, Text, text_eq, Map, count, ltb, leb, ◌==◌, ℕ, ◌+◌, ◌≤◌, if◌then◌else◌, false, not,
  ◌&&◌, List, [], ◌∷◌, Option, none, some, ◌≡◌, refl, arith,
}
use egop.Autoload
use egop.Autoload.{
  Instance, HostFace, Load, load_failed, loaded_as, FileUnit, new_unit, World, Watcher,
  close_instance, removed, sweep_unit, sweep, unload_unit, unload_units, unload, registered,
  retry_register, register_first, retire_old, drop_new, re_identify, replace_version, load_content,
  read_content, apply_waiting, apply_change, with_event, observe, unit_at, apply_seen, poll,
}

-- How often the instance k is held by a unit, and by all units.
abbrev pub one : ℕ → Option Instance → ℕ
one k none = 0
one k (some p) = if p.number == k then 1 else 0

abbrev pub unit_holds : ℕ → FileUnit → ℕ
unit_holds k u = one k u.plugin + one k u.np

unfoldable pub units_hold : ℕ → Map FileUnit → ℕ
units_hold k [] = 0
units_hold k ((p, u) ∷ units) = unit_holds k u + units_hold k units

-- 1 for an instance that was loaded between two numbers.
abbrev pub born : ℕ → ℕ → ℕ → ℕ
born k next next' = if leb next k && ltb k next' then 1 else 0

module _ {S : Type 0} where
  -- What a step makes of an account: nothing is closed or held twice that was not before.
  pub record Grows (held : ℕ → ℕ) (w : World S) (held' : ℕ → ℕ) (w' : World S) : Type 0 where
    pub later : w.next ≤ w'.next
    pub kept :
        (k : ℕ) → held' k + count k w'.closed ≤ held k + count k w.closed + born k w.next w'.next

  pub Grows-refl : (held : ℕ → ℕ) (w : World S) → Grows held w held w
  Grows-refl held w = record { later = omega arith; kept = λ k. omega arith }

  pub close-next : (o : Option Instance) (w : World S) → (close_instance o w).next ≡ w.next
  unfolding close_instance
  close-next none w = refl
  close-next (some p) w = refl

  pub close-counts :
      (k : ℕ) (o : Option Instance) (w : World S)
      → count k (close_instance o w).closed ≡ one k o + count k w.closed
  unfolding close_instance count
  close-counts k none w = omega arith
  close-counts k (some p) w = omega arith

  module _ (face : HostFace S) (load : Text → Text → Load) (p : Text) (h : Text) where
    -- A step of one unit.
    abbrev Grown : FileUnit → World S → FileUnit × World S × Autoload.Event → Type 0
    Grown u w r = Grows (λ k. unit_holds k u) w (λ k. unit_holds k r.0) r.1

    retry-Grown :
        (np : Instance) (answer : S × Option Text) (u : FileUnit) (w : World S)
        → u.np ≡ some np
        → Grown u w (retry_register face load p h np answer u w)
    unfolding retry_register registered
    retry-Grown np (host, none) u w e = record {
      later = omega arith;
      kept = λ k. rw e (omega arith);
    }
    retry-Grown np (host, some err) u w e = record { later = omega arith; kept = λ k. omega arith }

    -- The steps that follow a load, from the world before it.
    module _ (np : Instance) (w : World S) (number : np.number ≡ w.next) where
      abbrev loaded : World S
      loaded = record w { next = w.next + 1 }

      fresh-born : (k : ℕ) → one k (some np) ≡ born k w.next (w.next + 1)
      fresh-born k = ground (arith, number)

      first-Grown :
          (answer : S × Option Text) (u : FileUnit)
          → Grown u w (register_first face load p h np answer u loaded)
      unfolding register_first
      first-Grown (host, none) u = record {
        later = omega arith;
        kept = λ k. omega (arith, fresh-born k);
      }
      first-Grown (host, some err) u = record {
        later = omega arith;
        kept = λ k. omega (arith, fresh-born k);
      }

      taken-Grown :
          (id hash : Text) (host : S) (u : FileUnit)
          → Grows
              (λ k. unit_holds k u)
              w
              (λ k. unit_holds k (record u { id = id; hash = hash; plugin = some np }))
              (close_instance u.plugin (record loaded { host = host }))
      taken-Grown id hash host u = record {
        later = rw (close-next u.plugin (record loaded { host = host })) (omega arith);
        kept = λ k.
            rw (close-next u.plugin (record loaded { host = host })) (
              omega (arith, fresh-born k, close-counts k u.plugin (record loaded { host = host })));
      }

      dropped-Grown :
          (host : S) (u : FileUnit) (version : Text) (e : Autoload.Failure)
          → Grown u w (drop_new face load p h np host u loaded version e)
      unfolding drop_new close_instance count
      dropped-Grown host u version e = record {
        later = omega arith;
        kept = λ k. omega (arith, fresh-born k);
      }

      retired-Grown :
          (answer : S × Option Text) (host : S) (u : FileUnit)
          → Grown u w (retire_old face load p h np answer u (record loaded { host = host }))
      unfolding retire_old
      retired-Grown (host', none) host u = taken-Grown np.id h host' u
      retired-Grown (host', some err) host u = record {
        later = omega arith;
        kept = λ k. omega (arith, fresh-born k);
      }

      re_identify-Grown :
          (answer : S × Option Text) (u : FileUnit)
          → Grown u w (re_identify face load p h np answer u loaded)
      unfolding re_identify
      re_identify-Grown (host, none) u = retired-Grown (face.remove u.id false host) host u
      re_identify-Grown (host, some err) u = dropped-Grown host u np.version _

      replaced-Grown :
          (prev : Option Text) (answer : S × Option Text) (u : FileUnit)
          → Grown u w (replace_version face load p h np prev answer u loaded)
      unfolding replace_version
      replaced-Grown prev (host, none) u =
          taken-Grown u.id h (Autoload.replay face load p h prev u.id host).0 u
      replaced-Grown prev (host, some err) u = dropped-Grown host u [] _

    load-Grown :
        (l : Load) (u : FileUnit) (w : World S) → Grown u w (load_content face load p h l u w)
    unfolding load_content
    load-Grown (load_failed e) u w = record { later = omega arith; kept = λ k. omega arith }
    load-Grown (loaded_as id version) u w =
        let np : Instance = record { number = w.next; id = id; version = version } in
        if_either (Grown u w) (not u.loaded)
          (λ e. first-Grown np w refl (face.register np w.host) u)
          (λ e.
            if_either (Grown u w) (not (text_eq id u.id))
              (λ e'. re_identify-Grown np w refl (face.register np w.host) u)
              (λ e'.
                replaced-Grown np w refl (face.applied_config u.id w.host) (face.replace np w.host)
                  u))

    read-Grown :
        (content : Option Text) (u : FileUnit) (w : World S)
        → Grown u w (read_content face load p h content u w)
    unfolding read_content
    read-Grown none u w = record { later = omega arith; kept = λ k. omega arith }
    read-Grown (some content) u w = load-Grown (load content p) u w

    -- The instance that waited is closed and its unit empty before the load.
    emptied-Grown :
        (np : Instance) (content : Option Text) (u : FileUnit) (w : World S)
        → u.np ≡ some np
        → Grown u w (
            read_content face load p h content
              (record u { np = none; np_hash = [] })
              (close_instance (some np) w))
    unfolding close_instance count
    emptied-Grown np content u w e =
        let u' : FileUnit = record u { np = none; np_hash = [] } in
        let g = read-Grown content u' (close_instance (some np) w) in
        record { later = g.later; kept = λ k. rw e (omega (arith, g.kept k)) }

    waiting-Grown :
        (o : Option Instance) (content : Option Text) (u : FileUnit) (w : World S)
        → u.np ≡ o
        → Grown u w (apply_waiting face load p h o content u w)
    unfolding apply_waiting
    waiting-Grown none content u w e = read-Grown content u w
    waiting-Grown (some np) content u w e =
        if_either (Grown u w) (text_eq h u.np_hash)
          (λ t. retry-Grown np (face.register np w.host) u w e)
          (λ t. emptied-Grown np content u w e)

    abbrev pub ObservedGrown :
        FileUnit → World S → FileUnit × World S × List Autoload.Event → Type 0
    ObservedGrown u w r = Grows (λ k. unit_holds k u) w (λ k. unit_holds k r.0) r.1

    with_event-Grown :
        (u : FileUnit) (w : World S) (r : FileUnit × World S × Autoload.Event)
        → Grown u w r
        → ObservedGrown u w (with_event r)
    unfolding with_event
    with_event-Grown u w (u', w', e) g = g

    pub observe-Grown :
        (content : Option Text) (u : FileUnit) (w : World S)
        → ObservedGrown u w (observe face load p h content u w)
    unfolding observe apply_change
    observe-Grown content u w =
        if_either (ObservedGrown u w) (u.loaded && text_eq h u.hash) (λ e. Grows-refl _ w)
          (λ e.
            if_either (ObservedGrown u w) (not (Autoload.waits u) && text_eq u.err_hash h)
              (λ e. Grows-refl _ w)
              (λ e.
                if_either (ObservedGrown u w) (not (text_eq u.pending h))
                  (λ e. record { later = omega arith; kept = λ k. omega arith })
                  (λ e. with_event-Grown u w _ (waiting-Grown u.np content u w refl))))
