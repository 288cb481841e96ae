-- ===== src/Autoload/Confirmation.antt =====
-- autoload/autoload.go: content is loaded, and units removed, only on the word of two polls.
use egop.Prelude.{
  if◌then◌else◌, Text, Map, AreDistinct, none_twice, insert-AreDistinct, distinct_lookup, if_either,
  Bool, List, [], ◌∷◌, In, In-insert_cases, Option, none, some, ◌≡◌, ◌≢◌, inl, inr, arith,
}
use egop.Autoload.{HostFace, FileUnit, Watcher, Found, see, scan, sweep, unload, poll}
use egop.Autoload.Steps.{Runs, starts, polls, unloads, elsewhere}
use egop.Autoload.Sweeps.{sweep_finds}
use egop.Autoload.Sightings.{AreWatched, Swept-IsWatched, more_seen, apply_seen-AreWatched}

-- What a walk makes: no key twice, and the hash of a content at each.
record IsScan (hash_bytes : Text → Text) (seen : Map Text) : Type 0 where
  distinct : AreDistinct seen
  hashes : (p h : Text) → In (p, h) seen → (content : Text) × (h ≡ hash_bytes content)

see-IsScan :
    (b : Text → Text) (key : Text) (content : Option Text) (seen : Map Text)
    → IsScan b seen
    → IsScan b (see b key content seen)
unfolding see
see-IsScan b key none seen v = v
see-IsScan b key (some content) seen v = record {
  distinct = insert-AreDistinct key (b content) seen v.distinct;
  hashes = λ p h i. elim (In-insert_cases key (b content) seen i) [
    | inl (same, value) ↦ (content, value)
    | inr old ↦ v.hashes p h old
  ];
}

scan-IsScan :
    (f : Text → Bool) (b : Text → Text) (files : List Found) (seen : Map Text)
    → IsScan b seen
    → IsScan b (scan f b files seen)
unfolding scan see
scan-IsScan f b [] seen v = v
scan-IsScan f b (x ∷ files) seen v =
    scan-IsScan f b files _
      (if_either (IsScan b) (f x.name) (λ e. see-IsScan b x.key x.content seen v) (λ e. v))

no-IsScan : (b : Text → Text) → IsScan b []
no-IsScan b = record { distinct = none_twice; hashes = λ p h i. elim i [ ] }

-- In every run of a watcher whose hashes are not empty: a content that is in use, and one that waits
-- for its dependencies, was seen at its path by two polls at least, and a candidate by one; a unit
-- that counts a miss was missed by the last poll, and none counts two.
pub Runs-AreWatched :
    {S : Type 0} (face : HostFace S) (is_plugin_file : Text → Bool) (hash_bytes : Text → Text)
    → ((content : Text) → hash_bytes content ≢ [])
    → {seen : List (Map Text)} {s : Watcher S} → Runs face is_plugin_file hash_bytes seen s
    → AreWatched seen s.units
unfolding poll unload
Runs-AreWatched face f b some_hash (starts host) = λ p u i. elim i [ ]
Runs-AreWatched face f b some_hash (polls {seen = seen} {s = s} load read files r) =
    let m = scan f b files [] in
    let v : IsScan b m = scan-IsScan f b files [] (no-IsScan b) in
    let swept = sweep face m s.units s.world in
    let before = Runs-AreWatched face f b some_hash r in
    apply_seen-AreWatched face load read m seen m swept.0 swept.1 v.distinct
      (λ p h i.
        let (content, e) = v.hashes p h i in
        (distinct_lookup m v.distinct i, rw e (some_hash content)))
      (λ p u i.
        let (x, old, sw) = sweep_finds face m s.units s.world p u i in
        (
          Swept-IsWatched (more_seen p m seen) (before p x old) sw,
          λ again. Swept-IsWatched (λ h. omega arith) (before p x old) sw,
        ))
Runs-AreWatched face f b some_hash (unloads r) = λ p u i. elim i [ ]
Runs-AreWatched face f b some_hash (elsewhere host r) = Runs-AreWatched face f b some_hash r

-- A unit after a poll that missed its file.
abbrev pub after_miss : FileUnit → FileUnit
after_miss u = record u { misses = if u.loaded then 1 else 0 }
