-- ===== src/Cache/Session.antt =====
-- Runs of the cache as the file handler makes them, and what `Put` evicts.
use Prim.Native.Nat.{min}
use static_web.Prelude.{
  ℕ, suc, ◌^◌, ◌≤◌, ◌<◌, ◌≡◌, refl, sym, ◌∙◌, ℤ, pos, false, none, some, List, [], ◌∷◌, Bytes, take,
  arith, Option-cases, inl, inr, ltb,
}
use static_web.Lru.{Lru}
use static_web.Lru.Laws.{total, erase_absent, find-take_absent, take-take}
use static_web.Cache.{Entry, Cache, without_old, add_entry, put, get, flush, stamp, new_cache}
use static_web.Cache.Accounting.{entry_size, held, IsExact}
use static_web.Cache.Exact.{put_absent-IsExact, room}
use static_web.Cache.Lookup.{get-IsExact, get_miss-absent}

-- What happens to the cache from outside. A request looks a path up, and the file that was read
-- from disk is put in behind a miss.
pub data Event : Type 0 where
  request : ℤ → Bytes → Entry → Event
  flush_signal : Event

module _ (lru : Lru Entry) where
  pub serve : Event → Cache lru → Cache lru
  serve (request now path e) c = elim ((get lru now path c).0) [
    | none ↦ put lru now path e (get lru now path c).1
    | some hit ↦ (get lru now path c).1
  ]
  serve flush_signal c = flush lru c

  pub run : List Event → Cache lru → Cache lru
  unfolding serve
  run [] c = c
  run (ev ∷ evs) c = run evs (serve ev c)

  new_cache-IsExact : (n : ℕ) (ttl : List ℤ) → n < 2 ^ 62 → IsExact lru (new_cache lru (pos n) ttl)
  unfolding new_cache held total
  new_cache-IsExact n ttl small = record {
    counted = rw lru.entries-new refl;
    bounded = rw lru.entries-new (omega arith);
    distinct = rw lru.entries-new tt;
    small = ground arith;
  }

  flush-IsExact : (c : Cache lru) → IsExact lru c → IsExact lru (flush lru c)
  unfolding flush held total
  flush-IsExact c v = record {
    counted = rw (lru.entries-purge c.store) refl;
    bounded = rw (lru.entries-purge c.store) (omega arith);
    distinct = rw (lru.entries-purge c.store) tt;
    small = v.small;
  }

  serve-IsExact : (ev : Event) (c : Cache lru) → IsExact lru c → IsExact lru (serve ev c)
  unfolding serve
  serve-IsExact flush_signal c v = flush-IsExact c v
  serve-IsExact (request now path e) c v =
      let exact = get-IsExact lru now path c v in
      let absent = get_miss-absent lru now path c v in
      elim (Option-cases ((get lru now path c).0)) [
        | inl miss ↦
            rw (miss, serve)
              (put_absent-IsExact lru now path e (get lru now path c).1 (absent miss) exact)
        | inr (hit, found) ↦ rw (found, serve) exact
      ]

  -- Whatever requests and flushes a new cache has served, one after another: its byte count is the
  -- size of what it holds, and that is within the limit.
  pub run-IsExact : (evs : List Event) (c : Cache lru) → IsExact lru c → IsExact lru (run evs c)
  unfolding run
  run-IsExact [] c v = v
  run-IsExact (ev ∷ evs) c v = run-IsExact evs (serve ev c) (serve-IsExact ev c v)

  -- Whatever requests and flushes a new cache of a limit below 2^62 has served, one after another,
  -- its byte count is the size of what it holds, no path is held twice, and the size is within the
  -- limit.
  pub run-new-IsExact :
      (max_bytes : ℕ) (ttl : List ℤ) (evs : List Event)
      → max_bytes < 2 ^ 62
      → IsExact lru (run evs (new_cache lru (pos max_bytes) ttl))
  run-new-IsExact max_bytes ttl evs small =
      run-IsExact evs _ (new_cache-IsExact max_bytes ttl small)

  take_front :
      (cap n : ℕ) (x : Bytes × Entry) (l : List (Bytes × Entry))
      → 0 < cap
      → take cap (x ∷ take n l) ≡ take (min cap (suc n)) (x ∷ l)
  take_front cap n x l h = take-take cap (suc n) (x ∷ l)

  -- On a cache with an exact count, Put of a file that fits and that the cache does not hold puts
  -- it in front, and keeps of the other entries the most recently used ones, in their order: what
  -- it evicts are the least recently used.
  pub put-recent :
      (now : ℤ) (path : Bytes) (e : Entry) (c : Cache lru)
      → lru.peek path c.store ≡ none
      → entry_size e ≤ c.max_bytes
      → IsExact lru c
      → (n : ℕ) × (0 < n)
        × (lru.entries (put lru now path e c).store
            ≡ take n ((path, stamp now c.ttl e) ∷ lru.entries c.store))
  unfolding put add_entry without_old
  put-recent now path e c absent fits v =
      let vs = v.small in
      let vb = v.bounded in
      let vc = v.counted in
      let p = lru.capacity_pos in
      let small : ltb c.max_bytes (entry_size e) ≡ false = ground arith in
      let r = room lru (entry_size e) c.cur_bytes c fits v.small v.counted (omega arith) in
      let gone =
        find-take_absent path r.kept (lru.entries c.store)
          (sym (lru.peek_lem path c.store) ∙ absent) in
      (
        min lru.capacity (suc r.kept),
        omega arith,
        rw
            (
              small,
              absent,
              put,
              without_old,
              lru.entries-add,
              r.recent,
              erase_absent path (take r.kept (lru.entries c.store)) gone,
            )
            (take_front lru.capacity r.kept _ _ p),
      )
