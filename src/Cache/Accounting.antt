-- ===== src/Cache/Accounting.antt =====
-- The byte count of the cache: what keeps it equal to the sizes of the entries that are held.
use Prim.Native.Nat.{min}
use static_web.Prelude.{
  ℕ, zero, suc, ◌+◌, ◌-◌, ◌^◌, ◌≤◌, ◌<◌, ◌≡◌, sym, ap, ◌∙◌, ◌&&◌, List, [], ◌∷◌, Bytes, length,
  take, drop, length-take, arith, Bool-cases, inl, inr, ltb, add_int64, sub_int64-le, gt_int64,
}
use static_web.Lru.{Lru, values}
use static_web.Lru.Laws.{Distinct, total, total-take-drop, total_of_length, take-take, take_length}
use static_web.Cache.{Entry, on_evict, Cache, evict_loop}
use static_web.Cache.File.{total_size}

abbrev pub entry_size : Entry → ℕ
entry_size e = total_size e.file

pub on_evict-total :
    (cur : ℕ) (l : List (Bytes × Entry))
    → cur < 2 ^ 63
    → total entry_size l ≤ cur
    → on_evict cur (values l) ≡ cur - total entry_size l
unfolding on_evict total
on_evict-total cur [] small h = omega arith
on_evict-total cur ((k, e) ∷ l) small h =
    ap (λ c. on_evict c (values l)) (sub_int64-le cur (entry_size e) small (omega arith))
    ∙ omega (arith, on_evict-total (cur - entry_size e) l (omega arith) (omega arith))

module _ (lru : Lru Entry) where
  -- The sizes of all entries together.
  unfoldable pub held : lru.Store → ℕ
  held s = total entry_size (lru.entries s)

  -- The count is exact and within the limit, and no path is held twice.
  pub record IsExact (c : Cache lru) : Type 0 where
    pub counted : c.cur_bytes ≡ held c.store
    pub bounded : held c.store ≤ c.max_bytes
    pub distinct : Distinct (lru.entries c.store)
    pub small : c.max_bytes < 2 ^ 62

  -- What the eviction loop leaves: the most recent entries, with room for the new one.
  pub record Room (new_size max : ℕ) (s : lru.Store) (r : ℕ × lru.Store) : Type 0 where
    pub kept : ℕ
    pub recent : lru.entries r.1 ≡ take kept (lru.entries s)
    pub counted : r.0 ≡ held r.1
    pub fits : r.0 + new_size ≤ max

  remove_oldest-held :
      (s : lru.Store) (cur : ℕ)
      → cur < 2 ^ 63
      → cur ≡ held s
      → on_evict cur (lru.remove_oldest s).0 ≡ held (lru.remove_oldest s).1
  unfolding held
  remove_oldest-held s cur small h =
      rw (lru.evicted-remove_oldest s, lru.entries-remove_oldest s)
        (omega (
          arith,
          on_evict-total cur (drop (length (lru.entries s) - 1) (lru.entries s)),
          total-take-drop entry_size (length (lru.entries s) - 1) (lru.entries s),
        ))

  remove_oldest-le : (s : lru.Store) → held (lru.remove_oldest s).1 ≤ held s
  unfolding held
  remove_oldest-le s =
      rw (lru.entries-remove_oldest s)
        (omega (arith, total-take-drop entry_size (length (lru.entries s) - 1) (lru.entries s)))

  length-remove_oldest :
      (s : lru.Store) → length (lru.entries (lru.remove_oldest s).1) ≡ length (lru.entries s) - 1
  length-remove_oldest s =
      rw (lru.entries-remove_oldest s)
        (omega (arith, length-take (length (lru.entries s) - 1) (lru.entries s)))

  held_empty : (s : lru.Store) → length (lru.entries s) ≡ 0 → held s ≡ 0
  unfolding held
  held_empty s h = total_of_length entry_size (lru.entries s) h

  pub evict_loop-Room :
      (fuel new_size max cur : ℕ) (s : lru.Store)
      → max < 2 ^ 62
      → new_size ≤ max
      → cur ≡ held s
      → cur ≤ max
      → length (lru.entries s) ≤ fuel
      → Room new_size max s (evict_loop lru fuel new_size max cur s)
  unfolding evict_loop
  evict_loop-Room zero new_size max cur s small fits h le f = record {
    kept = length (lru.entries s);
    recent = sym (take_length (lru.entries s));
    counted = h;
    fits = omega (arith, held_empty s);
  }
  evict_loop-Room (suc fuel) new_size max cur s small fits h le f =
      elim (Bool-cases (gt_int64 (add_int64 cur new_size) max && ltb 0 (lru.len s))) [
        | inl g ↦
            rw (g, evict_loop)
              (let cur' = on_evict cur (lru.remove_oldest s).0 in
                let s' = (lru.remove_oldest s).1 in
                let exact : cur' ≡ held s' = remove_oldest-held s cur (omega arith) h in
                let less : held s' ≤ held s = remove_oldest-le s in
                let shorter : length (lru.entries s') ≤ fuel =
                  ground (arith, lru.len_lem s, length-remove_oldest s) in
                let r =
                  evict_loop-Room fuel new_size max cur' s' small fits exact (omega (arith, h))
                    shorter in
                record {
                  kept = min r.kept (length (lru.entries s) - 1);
                  recent =
                      r.recent
                      ∙ ap (take r.kept) (lru.entries-remove_oldest s)
                      ∙ take-take r.kept _ _;
                  counted = r.counted;
                  fits = r.fits;
                })
        | inr g ↦
            rw (g, evict_loop)
              (record {
                kept = length (lru.entries s);
                recent = sym (take_length (lru.entries s));
                counted = h;
                fits = ground (arith, h, lru.len_lem s, held_empty s);
              })
      ]
