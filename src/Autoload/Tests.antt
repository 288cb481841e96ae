-- ===== src/Autoload/Tests.antt =====
-- A directory of three files, on a host that refuses an id that it has.
use egop.Prelude.{
  Text, codes, text_eq, lookup, insert, any, contains, filter, length, Map, count, ℕ, ◌+◌,
  if◌then◌else◌, Bool, true, not, List, [], ◌∷◌, Option, none, some, ◌≡◌, ◌≢◌, refl,
}
use egop.Autoload
use egop.Autoload.{
  HostFace, Instance, Load, load_failed, loaded_as, FileUnit, new_unit, World, Watcher, Found, scan,
  see, sweep, sweep_unit, removed, observe, apply_seen, unit_at, poll, unload, apply_change,
  apply_waiting, read_content, load_content, register_first, with_event, waits, failed_event,
}
use egop.Autoload.Steps.{Runs, starts, polls}
use egop.Autoload.Accounts.{IsAccounted, Runs-IsAccounted}
use egop.Autoload.Instances.{units_hold}
use egop.Autoload.Shapes.{unload_closes}
use egop.Autoload.Changes.{failed_keeps}
use egop.Autoload.Sightings.{AreWatched}
use egop.Autoload.Confirmation.{Runs-AreWatched}
use egop.Autoload.Failures.{two_polls, bad_content_retries, flicker_loads}

abbrev ids : HostFace (List Text)
ids = record {
  register = λ p s. if contains s p.id then (s, some (codes "duplicate")) else (p.id ∷ s, none);
  replace = λ p s. (s, none);
  remove = λ id cascade s. (filter (λ i. not (text_eq i id)) s, none);
  set_config = λ id cfg s. (s, none);
  applied_config = λ id s. none;
}

abbrev load_all : Text → Text → Load
load_all content p =
    if text_eq content (codes "bad")
    then load_failed (codes "no module")
    else loaded_as content (codes "1")

abbrev is_package : Text → Bool
is_package name = text_eq name (codes "a.egop.wasm")

abbrev hash_of : Text → Text
hash_of content = 35 ∷ content

hash_of-Some : (content : Text) → hash_of content ≢ []
hash_of-Some content e = cc

abbrev directory : List Found
directory =
    record { key = codes "d/a"; name = codes "a.egop.wasm"; content = some (codes "x") }
    ∷ record { key = codes "d/n"; name = codes "notes"; content = some (codes "y") }
    ∷ record { key = codes "d/b"; name = codes "a.egop.wasm"; content = none }
    ∷ []

abbrev read_all : Text → Option Text
read_all p = some (codes "x")

abbrev seen_now : Map Text
seen_now = scan is_package hash_of directory []

abbrev empty_watcher : Watcher (List Text)
empty_watcher = record { units = []; world = record { host = []; next = 0; closed = [] } }

abbrev watched_once : Watcher (List Text)
watched_once = (poll ids load_all read_all seen_now empty_watcher).0

abbrev watched_twice : Watcher (List Text)
watched_twice = (poll ids load_all read_all seen_now watched_once).0

registers_at_second_sight :
    (watched_once.world.host ≡ []) × (watched_twice.world.host ≡ codes "x" ∷ [])
unfolding poll sweep sweep_unit apply_seen observe unit_at scan see waits apply_change apply_waiting
    read_content load_content register_first with_event text_eq insert lookup contains any
registers_at_second_sight = (refl, refl)

one_poll : Runs ids is_package hash_of (seen_now ∷ []) watched_once
one_poll = polls load_all read_all directory (starts [])

two-Runs : Runs ids is_package hash_of (seen_now ∷ seen_now ∷ []) watched_twice
two-Runs = polls load_all read_all directory one_poll

Runs-IsAccounted_example : IsAccounted watched_twice
Runs-IsAccounted_example = Runs-IsAccounted ids is_package hash_of two-Runs

unload_closes_example :
    ((unload ids watched_twice).units ≡ [])
    × ((k : ℕ)
        → count k (unload ids watched_twice).world.closed
          ≡ units_hold k watched_twice.units + count k watched_twice.world.closed)
unload_closes_example = unload_closes ids is_package hash_of two-Runs

Runs-AreWatched_example : AreWatched (seen_now ∷ seen_now ∷ []) watched_twice.units
Runs-AreWatched_example = Runs-AreWatched ids is_package hash_of hash_of-Some two-Runs

abbrev the_unit : FileUnit
the_unit = record new_unit {
  pending = hash_of (codes "x");
  hash = hash_of (codes "x");
  id = codes "x";
  loaded = true;
  plugin = some (record { number = 0; id = codes "x"; version = codes "1" });
}

abbrev nothing_seen : Map Text
nothing_seen = []

abbrev old_world : World (List Text)
old_world = record { host = codes "x" ∷ []; next = 1; closed = [] }

-- The version "x" is in use.
abbrev in_use : FileUnit
in_use = record new_unit {
  hash = hash_of (codes "x");
  id = codes "x";
  loaded = true;
  plugin = some (record { number = 0; id = codes "x"; version = codes "1" });
}

bad_fails :
    ((apply_change ids load_all
      (codes "d/a")
      (hash_of (codes "bad"))
      (some (codes "bad"))
      in_use
      old_world).2
    ).action
    ≡ Autoload.failed
unfolding apply_change apply_waiting read_content load_content failed_event text_eq
bad_fails = refl

failed_keeps_example :
    let u' =
      (apply_change ids load_all
        (codes "d/a")
        (hash_of (codes "bad"))
        (some (codes "bad"))
        in_use
        old_world).0 in
    (u'.plugin ≡ in_use.plugin)
    × (u'.id ≡ in_use.id)
    × (u'.hash ≡ in_use.hash)
    × (u'.loaded ≡ in_use.loaded)
failed_keeps_example =
    failed_keeps ids load_all (codes "d/a") (hash_of (codes "bad")) (some (codes "bad")) in_use
      old_world bad_fails

bad_content_retries_example :
    length
      (two_polls ids load_all
        (codes "d/a")
        3
        (hash_of (codes "bad"))
        (some (codes "bad"))
        in_use
        old_world).2
    ≡ 3
unfolding text_eq
bad_content_retries_example =
    bad_content_retries ids load_all (codes "d/a") (hash_of (codes "bad")) (codes "bad")
      (codes "no module") refl (hash_of-Some (codes "bad")) in_use old_world 2 refl refl (λ e. cc)
      (λ e. cc)

flicker_loads_example :
    let h = hash_of [] in
    let first = observe ids load_all (codes "d/a") h (some []) in_use old_world in
    let between =
      observe ids load_all (codes "d/a") in_use.hash (some (codes "x")) first.0 first.1 in
    observe ids load_all (codes "d/a") h (some []) between.0 between.1
    ≡ with_event (
        apply_change ids load_all
          (codes "d/a")
          h
          (some [])
          (record in_use { pending = h })
          old_world)
flicker_loads_example =
    flicker_loads ids load_all (codes "d/a") (hash_of []) [] (codes "x") in_use old_world refl
      (λ e. cc) (λ e. cc) (λ e. cc)
