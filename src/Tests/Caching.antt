-- ===== src/Tests/Caching.antt =====
-- The cache: internal/cache/cache.go.
use static_web.Prelude.{
  ℕ, ◌+◌, ◌≤◌, ◌<◌, ◌≡◌, refl, pos, false, none, some, List, [], ◌∷◌, Bytes, codes, arith, take,
}
use static_web.Strings.{bytes_eq}
use static_web.Lru.{Lru, find}
use static_web.Lru.Laws.{total}
use static_web.Lru.Listed.{listed}
use static_web.Cache.{Entry, Cache, new_cache, get, put, is_expired, stamp}
use static_web.Cache.File.{total_size}
use static_web.Cache.Accounting.{entry_size, held, IsExact}
use static_web.Cache.Exact.{put_replaced-IsExact}
use static_web.Cache.Lookup.{get_miss-absent, get-put_self}
use static_web.Cache.Session.{Event, request, flush_signal, run, run-new-IsExact, put-recent}
use static_web.Cache.Overflow.{put_oldest-exceeds}
use static_web.Tests.Samples.{entry}

abbrev pub store : Lru Entry
store = listed 3 (omega arith)

abbrev path_a : Bytes
path_a = codes "/a"

abbrev path_b : Bytes
path_b = codes "/b"

abbrev small_entry : Entry
small_entry = entry 1 (codes "hello world")

abbrev other_entry : Entry
other_entry = entry 2 (codes "hello there")

abbrev large_entry : Entry
large_entry = entry 3 (codes "a longer text by far")

abbrev two : List (Bytes × Entry)
two = (path_b, other_entry) ∷ (path_a, small_entry) ∷ []

-- A cache that holds two files, the older one at `/a`, with little room left.
abbrev pub full : Cache store
full = record { store = two; max_bytes = 540; ttl = 0; cur_bytes = 538; hits = 0; misses = 2 }

-- The same with room for more.
abbrev roomy : Cache store
roomy = record full { max_bytes = 1000 }

pub full-IsExact : IsExact store full
unfolding held total total_size find bytes_eq
full-IsExact = record {
  counted = refl;
  bounded = omega arith;
  distinct = (refl, (refl, tt));
  small = omega arith;
}

roomy-IsExact : IsExact store roomy
unfolding held total total_size find bytes_eq
roomy-IsExact = record {
  counted = refl;
  bounded = omega arith;
  distinct = (refl, (refl, tt));
  small = omega arith;
}

c_absent : store.peek (codes "/c") two ≡ none
unfolding find bytes_eq
c_absent = refl

a_held : store.peek path_a two ≡ some small_entry
unfolding find bytes_eq
a_held = refl

replacement_fits : held store two + entry_size large_entry ≤ 1000 + entry_size small_entry
unfolding held total total_size
replacement_fits = omega arith

put_replaced-IsExact_example : IsExact store (put store (pos 7) path_a large_entry roomy)
put_replaced-IsExact_example =
    put_replaced-IsExact store (pos 7) path_a large_entry small_entry roomy a_held replacement_fits
      roomy-IsExact

c_missed : (get store (pos 7) (codes "/c") full).0 ≡ none
unfolding get find bytes_eq
c_missed = refl

get_miss-absent_example :
    store.peek (codes "/c") (get store (pos 7) (codes "/c") full).1.store ≡ none
get_miss-absent_example = get_miss-absent store (pos 7) (codes "/c") full full-IsExact c_missed

large_fits : entry_size large_entry ≤ 540
unfolding total_size
large_fits = omega arith

still_alive : is_expired (pos 9) (stamp (pos 7) 0 large_entry).file ≡ false
unfolding is_expired stamp
still_alive = refl

get-put_self_example :
    (get store (pos 9) path_a (put store (pos 7) path_a large_entry full)).0
    ≡ some (stamp (pos 7) 0 large_entry)
get-put_self_example =
    get-put_self store (pos 7) (pos 9) path_a large_entry full large_fits still_alive

abbrev day : List Event
day =
    request (pos 1) path_a small_entry
    ∷ request (pos 2) path_b other_entry
    ∷ request (pos 3) (codes "/c") large_entry
    ∷ flush_signal
    ∷ request (pos 4) path_a small_entry
    ∷ []

run-new-IsExact_example : IsExact store (run store day (new_cache store (pos 540) []))
run-new-IsExact_example = run-new-IsExact store 540 [] day (omega arith)

put-recent_example :
    (n : ℕ) × (0 < n)
    × (store.entries (put store (pos 7) (codes "/c") large_entry full).store
        ≡ take n ((codes "/c", stamp (pos 7) 0 large_entry) ∷ two))
put-recent_example =
    put-recent store (pos 7) (codes "/c") large_entry full c_absent large_fits full-IsExact

a_not_in_rest : find path_a ((path_b, other_entry) ∷ []) ≡ none
unfolding find bytes_eq
a_not_in_rest = refl

no_room : 540 < total entry_size ((path_b, other_entry) ∷ []) + entry_size large_entry
unfolding total total_size
no_room = omega arith

old_le : entry_size small_entry ≤ total entry_size ((path_b, other_entry) ∷ [])
unfolding total total_size
old_le = omega arith

near :
    total entry_size ((path_b, other_entry) ∷ []) + entry_size large_entry
    ≤ 540 + entry_size small_entry
unfolding total total_size
near = omega arith

put_oldest-exceeds_example :
    (540 < held store (put store (pos 7) path_a large_entry full).store)
    × ((put store (pos 7) path_a large_entry full).cur_bytes + entry_size small_entry
        ≡ held store (put store (pos 7) path_a large_entry full).store)
put_oldest-exceeds_example =
    put_oldest-exceeds store (pos 7) path_a large_entry small_entry ((path_b, other_entry) ∷ [])
      full refl a_not_in_rest (omega arith) full-IsExact large_fits no_room old_le near

abbrev pub path_store : Lru Bytes
path_store = listed 3 (omega arith)
