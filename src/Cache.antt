-- ===== src/Cache.antt =====
-- `Cache` of internal/cache/cache.go over the LRU store: lookups with expiry, insertion with eviction
-- down to the byte limit, and the byte count that the eviction callback keeps.
pub mod File
pub mod Accounting
pub mod Exact
pub mod Lookup
pub mod Session
pub mod Every
pub mod Overflow
pub mod Preload
use static_web.Prelude.{
  ℕ, zero, suc, ◌+◌, ◌-◌, ◌*◌, ℤ, pos, negsuc, Bool, true, false, ◌&&◌, Option, none, some, List,
  [], ◌∷◌, Bytes, length, ltb, ◌==◌, if◌then◌else◌, add_int64, sub_int64, gt_int64, lt_int, add_int,
}
use static_web.Lru.{Lru}
use File.{CachedFile, total_size}

-- A `*CachedFile`: the file and the address at which it lies.
pub record Entry : Type 0 where
  pub address : ℕ
  pub file : CachedFile

pub record CacheStats : Type 0 where
  pub hits : ℕ
  pub misses : ℕ
  pub current_bytes : ℕ
  pub entry_count : ℕ

-- `onEvict`: the callback subtracts the size of each evicted file.
unfoldable pub on_evict : ℕ → List Entry → ℕ
on_evict cur [] = cur
on_evict cur (e ∷ es) = on_evict (sub_int64 cur (total_size e.file)) es

-- `!f.ExpiresAt.IsZero() && time.Now().After(f.ExpiresAt)`
unfoldable pub is_expired : ℤ → CachedFile → Bool
is_expired now f = elim f.expires_at [ none ↦ false | some t ↦ lt_int t now ]

-- `f.ExpiresAt`, as `Put` sets it.
unfoldable pub stamp : ℤ → ℕ → Entry → Entry
stamp now ttl e = record e {
  file = record (e.file) { expires_at = if ltb 0 ttl then some (add_int now ttl) else none };
}

module _ (lru : Lru Entry) where
  open lru use {Store}

  -- `curBytes` is the bit pattern of an int64.
  pub record Cache : Type 0 where
    pub store : Store
    pub max_bytes : ℕ
    pub ttl : ℕ
    pub cur_bytes : ℕ
    pub hits : ℕ
    pub misses : ℕ

  abbrev pub default_max_bytes : ℕ
  default_max_bytes = 256 * 1024 * 1024

  -- A size that is not positive means the default; a ttl that is not positive, none.
  unfoldable pub new_cache : ℤ → List ℤ → Cache
  new_cache max_bytes ttl = record {
    store = lru.new;
    max_bytes = elim max_bytes [
      | pos n ↦ if n == 0 then default_max_bytes else n
      | negsuc n ↦ default_max_bytes
    ];
    ttl = elim ttl [ [] ↦ 0 | t ∷ ts ↦ elim t [ pos n ↦ n | negsuc n ↦ 0 ] ];
    cur_bytes = 0;
    hits = 0;
    misses = 0;
  }

  -- `removeIfSame`: only the very entry that was read is removed.
  unfoldable pub remove_if_same : Bytes → Entry → Cache → Cache
  unfolding on_evict
  remove_if_same path e c = elim (lru.peek path c.store) [
    | none ↦ c
    | some cur ↦
        if cur.address == e.address
        then record c {
          store = (lru.remove path c.store).1;
          cur_bytes = on_evict c.cur_bytes (lru.remove path c.store).0;
        }
        else c
  ]

  -- `Get`, at the time `now`.
  unfoldable pub get : ℤ → Bytes → Cache → Option Entry × Cache
  unfolding remove_if_same is_expired
  get now path c =
      let (found, store) = lru.get path c.store in
      elim found [
        | none ↦ (none, record c { store = store; misses = c.misses + 1 })
        | some e ↦
            if is_expired now e.file
            then (let c' = remove_if_same path e (record c { store = store }) in
                (none, record c' { misses = c'.misses + 1 }))
            else (some e, record c { store = store; hits = c.hits + 1 })
      ]

  -- `for c.curBytes.Load()+newSize > c.maxBytes && c.lru.Len() > 0 { c.lru.RemoveOldest() }`
  unfoldable pub evict_loop : ℕ → ℕ → ℕ → ℕ → Store → ℕ × Store
  unfolding on_evict
  evict_loop zero new_size max cur s = (cur, s)
  evict_loop (suc fuel) new_size max cur s =
      elim (gt_int64 (add_int64 cur new_size) max && ltb 0 (lru.len s)) [
        | true ↦
            evict_loop fuel new_size max (on_evict cur (lru.remove_oldest s).0)
              (lru.remove_oldest s).1
        | false ↦ (cur, s)
      ]

  -- The byte count without the entry that `path` has.
  unfoldable pub without_old : Bytes → Cache → ℕ
  without_old path c = elim (lru.peek path c.store) [
    | none ↦ c.cur_bytes
    | some old ↦ sub_int64 c.cur_bytes (total_size old.file)
  ]

  -- `c.lru.Add(path, f)` and `c.curBytes.Add(newSize)`.
  unfoldable pub add_entry : Bytes → Entry → ℕ → ℕ × Store → Cache → Cache
  unfolding on_evict
  add_entry path e new_size (cur, s) c = record c {
    store = (lru.add path e s).1;
    cur_bytes = add_int64 (on_evict cur (lru.add path e s).0) new_size;
  }

  -- `Put`, at the time `now`. Each round of the loop takes an entry, so their number is fuel enough.
  unfoldable pub put : ℤ → Bytes → Entry → Cache → Cache
  unfolding evict_loop without_old stamp add_entry
  put now path e c =
      let new_size = total_size e.file in
      if ltb c.max_bytes new_size
      then c
      else add_entry path (stamp now c.ttl e) new_size
          (evict_loop (lru.len c.store) new_size c.max_bytes (without_old path c) c.store) c

  -- `Flush`.
  pub flush : Cache → Cache
  flush c = record c { store = (lru.purge c.store).1; cur_bytes = 0 }

  -- `Stats`.
  pub stats : Cache → CacheStats
  stats c = record {
    hits = c.hits;
    misses = c.misses;
    current_bytes = c.cur_bytes;
    entry_count = lru.len c.store;
  }
