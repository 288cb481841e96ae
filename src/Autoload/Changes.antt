-- ===== src/Autoload/Changes.antt =====
-- autoload/autoload.go: all that applyChange can make of a unit.
use egop.Prelude.{
  if_either, Text, text_eq, text_eq_sound, true, false, not, ◌&&◌, List, [], Option, none, some,
  ◌≡◌, refl, sym, subst, arith,
}
use egop.Autoload
use egop.Autoload.{
  Action, Instance, HostFace, Load, load_failed, loaded_as, FileUnit, World, close_instance,
  registered, retry_register, register_first, retire_old, drop_new, re_identify, replace_version,
  load_content, read_content, apply_waiting, apply_change, with_event, observe, failed_event,
}

-- A unit, the content that is applied, the unit after it, and the action of the event.
pub data Becomes (h : Text) : FileUnit → FileUnit → Action → Type 0 where
  same : {u : FileUnit} → Becomes h u u Action.failed
  starts_using :
      (u : FileUnit) (np : Instance)
      → u.np ≡ some np
      → u.np_hash ≡ h
      → Becomes h u
          (record u {
            id = np.id;
            hash = h;
            loaded = true;
            plugin = some np;
            np = none;
            np_hash = [];
          })
          Action.register
  uses :
      (u : FileUnit) (id : Text) (np : Instance)
      → u.loaded ≡ false
      → u.np ≡ none
      → Becomes h u
          (record u { id = id; hash = h; loaded = true; plugin = some np })
          Action.register
  keeps :
      (u : FileUnit) (np : Instance)
      → u.loaded ≡ false
      → Becomes h u (record u { np = some np; np_hash = h }) Action.failed
  switches :
      (u : FileUnit) (id : Text) (np : Instance)
      → u.loaded ≡ true
      → Becomes h u (record u { id = id; hash = h; plugin = some np }) Action.replace
  gives_up :
      (u : FileUnit) (err : Text)
      → Becomes h u (record u { pending = []; err_hash = err }) Action.failed
  after_dropping :
      {u u' : FileUnit} {a : Action}
      → Becomes h (record u { np = none; np_hash = [] }) u' a
      → Becomes h u u' a

module _ {S : Type 0} (face : HostFace S) (load : Text → Text → Load) (p : Text) (h : Text) where
  abbrev pub Changes : FileUnit → FileUnit × World S × Autoload.Event → Type 0
  Changes u r = Becomes h u r.0 (r.2).action

  retry-Becomes :
      (np : Instance) (answer : S × Option Text) (u : FileUnit) (w : World S)
      → u.np ≡ some np
      → u.np_hash ≡ h
      → Changes u (retry_register face load p h np answer u w)
  unfolding retry_register registered failed_event
  retry-Becomes np (host, none) u w e n = starts_using u np e n
  retry-Becomes np (host, some err) u w e n = same

  first-Becomes :
      (np : Instance) (answer : S × Option Text) (u : FileUnit) (w : World S)
      → u.loaded ≡ false
      → u.np ≡ none
      → Changes u (register_first face load p h np answer u w)
  unfolding register_first failed_event
  first-Becomes np (host, none) u w e n = uses u np.id np e n
  first-Becomes np (host, some err) u w e n = keeps u np e

  retired-Becomes :
      (np : Instance) (answer : S × Option Text) (u : FileUnit) (w : World S)
      → u.loaded ≡ true
      → Changes u (retire_old face load p h np answer u w)
  unfolding retire_old
  retired-Becomes np (host, none) u w e = switches u np.id np e
  retired-Becomes np (host, some err) u w e = switches u np.id np e

  re_identify-Becomes :
      (np : Instance) (answer : S × Option Text) (u : FileUnit) (w : World S)
      → u.loaded ≡ true
      → Changes u (re_identify face load p h np answer u w)
  unfolding re_identify drop_new failed_event
  re_identify-Becomes np (host, none) u w e =
      retired-Becomes np (face.remove u.id false host) u (record w { host = host }) e
  re_identify-Becomes np (host, some err) u w e = gives_up u h

  replaced-Becomes :
      (np : Instance) (prev : Option Text) (answer : S × Option Text) (u : FileUnit) (w : World S)
      → u.loaded ≡ true
      → Changes u (replace_version face load p h np prev answer u w)
  unfolding replace_version drop_new failed_event
  replaced-Becomes np prev (host, none) u w e = switches u u.id np e
  replaced-Becomes np prev (host, some err) u w e = gives_up u h

  load-Becomes :
      (l : Load) (u : FileUnit) (w : World S)
      → u.np ≡ none
      → Changes u (load_content face load p h l u w)
  unfolding load_content failed_event
  load-Becomes (load_failed e) u w n = gives_up u _
  load-Becomes (loaded_as id version) u w n =
      let np : Instance = record { number = w.next; id = id; version = version } in
      if_either (Changes u) (not u.loaded)
        (λ e. first-Becomes np (face.register np w.host) u _ (ground arith) n)
        (λ e.
          if_either (Changes u) (not (text_eq id u.id))
            (λ e'. re_identify-Becomes np (face.register np w.host) u _ (ground arith))
            (λ e'.
              replaced-Becomes np (face.applied_config u.id w.host) (face.replace np w.host) u _
                (ground arith)))

  read-Becomes :
      (content : Option Text) (u : FileUnit) (w : World S)
      → u.np ≡ none
      → Changes u (read_content face load p h content u w)
  unfolding read_content failed_event
  read-Becomes none u w n = gives_up u u.err_hash
  read-Becomes (some content) u w n = load-Becomes (load content p) u w n

  waiting-Becomes :
      (o : Option Instance) (content : Option Text) (u : FileUnit) (w : World S)
      → u.np ≡ o
      → Changes u (apply_waiting face load p h o content u w)
  unfolding apply_waiting
  waiting-Becomes none content u w e = read-Becomes content u w e
  waiting-Becomes (some np) content u w e =
      if_either (Changes u) (text_eq h u.np_hash)
        (λ t. retry-Becomes np (face.register np w.host) u w e (sym (text_eq_sound h u.np_hash t)))
        (λ t. after_dropping (
          read-Becomes content (record u { np = none; np_hash = [] }) (close_instance (some np) w)
            refl))

  pub apply_change-Becomes :
      (content : Option Text) (u : FileUnit) (w : World S)
      → Changes u (apply_change face load p h content u w)
  unfolding apply_change
  apply_change-Becomes content u w = waiting-Becomes u.np content u w refl

  with_event-unit : (r : FileUnit × World S × Autoload.Event) → (with_event r).0 ≡ r.0
  unfolding with_event
  with_event-unit (u, w, e) = refl

  -- What a poll makes of a unit whose file it saw: nothing, a first sight, or a change that is
  -- confirmed.
  pub observe_cases :
      (Q : FileUnit → Type 0) (content : Option Text) (u : FileUnit) (w : World S)
      → Q u
      → Q (record u { pending = h })
      → ((u' : FileUnit) (a : Action) → u.pending ≡ h → Becomes h u u' a → Q u')
      → Q (observe face load p h content u w).0
  unfolding observe
  observe_cases Q content u w unchanged first confirmed =
      let P : FileUnit × World S × List Autoload.Event → Type 0 = λ r. Q r.0 in
      if_either P (u.loaded && text_eq h u.hash) (λ e. unchanged)
        (λ e.
          if_either P (not (Autoload.waits u) && text_eq u.err_hash h) (λ e. unchanged)
            (λ e.
              if_either P (not (text_eq u.pending h)) (λ e. first)
                (λ e.
                  let known : u.pending ≡ h = text_eq_sound u.pending h (ground arith) in
                  subst Q (sym (with_event-unit (apply_change face load p h content u w)))
                    (confirmed _ _ known (apply_change-Becomes content u w)))))

-- Whatever applyChange reports as failed leaves the version that is loaded as it was: its instance,
-- its id, its content and that it is loaded.
pub failed_keeps :
    {S : Type 0} (face : HostFace S) (load : Text → Text → Load) (p h : Text)
    (content : Option Text) (u : FileUnit) (w : World S)
    → ((apply_change face load p h content u w).2).action ≡ Action.failed
    → let u' = (apply_change face load p h content u w).0 in
      (u'.plugin ≡ u.plugin) × (u'.id ≡ u.id) × (u'.hash ≡ u.hash) × (u'.loaded ≡ u.loaded)
failed_keeps face load p h content u w failed =
    kept (apply_change-Becomes face load p h content u w) failed
  where
    kept :
        {h : Text} {u u' : FileUnit} {a : Action}
        → Becomes h u u' a
        → a ≡ Action.failed
        → (u'.plugin ≡ u.plugin) × (u'.id ≡ u.id) × (u'.hash ≡ u.hash) × (u'.loaded ≡ u.loaded)
    kept same e = (refl, refl, refl, refl)
    kept (starts_using u np n m) e = cc
    kept (uses u id np l n) e = cc
    kept (keeps u np l) e = (refl, refl, refl, refl)
    kept (switches u id np l) e = cc
    kept (gives_up u err) e = (refl, refl, refl, refl)
    kept (after_dropping b) e = kept b e
