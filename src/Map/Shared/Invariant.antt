-- ===== src/Map/Shared/Invariant.antt =====
-- What holds of `LockFreeHashMap` and its threads between any two shared accesses.
use lockless_concurrent_fram.Common.{
  IsIn, ℕ, ◌<◌, ◌≡◌, ◌≢◌, ◌⊎◌, inl, inr, refl, Bool, true, false, Option, none, some, List,
}
use lockless_concurrent_fram.Map.{Node, bucket}
use lockless_concurrent_fram.Map.Shared.{
  Pc, idle, insert_load, insert_ready, insert_key, insert_cas, write_key, write_value, publish,
  inserted, find_load, find_ready, find_key, find_value, answered,
}

module _ {K V : Type 0} (size : ℕ) (hash : K → ℕ) where
  -- The bucket that a thread has claimed and not yet published.
  abbrev pub writing : Pc K V → Option ℕ
  writing (write_key k v i) = some (bucket size hash k i)
  writing (write_value k v i) = some (bucket size hash k i)
  writing (publish k v i) = some (bucket size hash k i)
  writing _ = none

  -- The buckets that `k` meets before round `i` are taken; or are written, with other keys.
  abbrev pub Taken : (ℕ → Node K V) → K → ℕ → Type 0
  Taken m k i = (r : ℕ) → r < i → (m (bucket size hash k r)).occupied ≡ true

  abbrev pub Differs : (ℕ → Node K V) → K → ℕ → Type 0
  Differs m k i =
      (r : ℕ)
      → r < i
      → ((m (bucket size hash k r)).ready ≡ true) × ((m (bucket size hash k r)).key ≢ k)

  abbrev pub Claimed : (ℕ → Node K V) → K → ℕ → Type 0
  Claimed m k i =
      Taken m k i
      × (i < size)
      × ((m (bucket size hash k i)).occupied ≡ true)
      × ((m (bucket size hash k i)).ready ≡ false)

  -- The result of `insert`: the key and value are in, or the key is there, or all buckets are taken.
  abbrev pub Settled : (ℕ → Node K V) → List (K × V) → K → V → Bool → Type 0
  Settled m log k v true = IsIn (k, v) log
  Settled m log k v false = ((w : V) × IsIn (k, w) log) ⊎ Taken m k size

  abbrev pub Local : (ℕ → Node K V) → List (K × V) → Pc K V → Type 0
  Local m log (insert_load k v i) = Taken m k i
  Local m log (insert_ready k v i) = Taken m k i × ((m (bucket size hash k i)).occupied ≡ true)
  Local m log (insert_key k v i) =
      Taken m k i
      × ((m (bucket size hash k i)).occupied ≡ true)
      × ((m (bucket size hash k i)).ready ≡ true)
  Local m log (insert_cas k v i) = Taken m k i × (i < size)
  Local m log (write_key k v i) = Claimed m k i
  Local m log (write_value k v i) = Claimed m k i × ((m (bucket size hash k i)).key ≡ k)
  Local m log (publish k v i) =
      Claimed m k i × ((m (bucket size hash k i)).key ≡ k) × ((m (bucket size hash k i)).value ≡ v)
  Local m log (inserted k v r) = Settled m log k v r
  Local m log (find_load k i) = Differs m k i
  Local m log (find_ready k i) = Differs m k i
  Local m log (find_key k i) = Differs m k i × ((m (bucket size hash k i)).ready ≡ true)
  Local m log (find_value k i) =
      ((m (bucket size hash k i)).ready ≡ true) × ((m (bucket size hash k i)).key ≡ k)
  Local m log (answered k (some v)) = IsIn (k, v) log
  Local m log _ = Unit

  -- A key and value stand in a bucket that is ready, and every bucket which the key meets before it is
  -- taken.
  abbrev pub Placed : (ℕ → Node K V) → K × V → Type 0
  Placed m x =
      (r : ℕ) × (r < size)
      × ((m (bucket size hash x.0 r)).ready ≡ true)
      × ((m (bucket size hash x.0 r)).key ≡ x.0)
      × ((m (bucket size hash x.0 r)).value ≡ x.1)
      × Taken m x.0 r

  pub record Inv (m : ℕ → Node K V) (log : List (K × V)) (pc : ℕ → Pc K V) : Type 0 where
    pub sound : (j : ℕ) → (m j).ready ≡ true → (m j).occupied ≡ true
    pub logged : (j : ℕ) → (m j).ready ≡ true → IsIn ((m j).key, (m j).value) log
    pub placed : (x : K × V) → IsIn x log → Placed m x
    pub locals : (u : ℕ) → Local m log (pc u)
    pub alone : (u w j : ℕ) → u ≢ w → writing (pc u) ≡ some j → writing (pc w) ≢ some j

  -- What a step may do to what others rely on: taken buckets stay taken, written ones stay as they
  -- are, and so does a bucket that another thread writes.
  pub record Onward (m : ℕ → Node K V) (log : List (K × V)) (p : Pc K V) (m' : ℕ → Node K V)
      (log' : List (K × V)) : Type 0 where
    pub taken : (j : ℕ) → (m j).occupied ≡ true → (m' j).occupied ≡ true
    pub written : (j : ℕ) → (m j).ready ≡ true → m' j ≡ m j
    pub claimed : (j : ℕ) → writing p ≡ some j → m' j ≡ m j
    pub grows : (x : K × V) → IsIn x log → IsIn x log'

  module _ {m m' : ℕ → Node K V} {log log' : List (K × V)} where
    Differs-Onward :
        {p : Pc K V} (k : K) (i : ℕ) → Onward m log p m' log' → Differs m k i → Differs m' k i
    Differs-Onward k i o d r lt = rw (o.written (bucket size hash k r) (d r lt).0) (d r lt)

    Claimed-Onward :
        {p : Pc K V} (k : K) (i : ℕ)
        → Onward m log p m' log'
        → m' (bucket size hash k i) ≡ m (bucket size hash k i)
        → Claimed m k i
        → Claimed m' k i
    Claimed-Onward k i o e c = ((λ r lt. o.taken _ (c.0 r lt)), c.1, rw e c.2, rw e c.3)

    pub Local-Onward : (p : Pc K V) → Onward m log p m' log' → Local m log p → Local m' log' p
    Local-Onward idle o h = tt
    Local-Onward (insert_load k v i) o h = λ r lt. o.taken _ (h r lt)
    Local-Onward (insert_ready k v i) o h = ((λ r lt. o.taken _ (h.0 r lt)), o.taken _ h.1)
    Local-Onward (insert_key k v i) o h =
        ((λ r lt. o.taken _ (h.0 r lt)), o.taken _ h.1, rw (o.written _ h.2) h.2)
    Local-Onward (insert_cas k v i) o h = ((λ r lt. o.taken _ (h.0 r lt)), h.1)
    Local-Onward (write_key k v i) o h = Claimed-Onward k i o (o.claimed _ refl) h
    Local-Onward (write_value k v i) o h =
        (Claimed-Onward k i o (o.claimed _ refl) h.0, rw (o.claimed _ refl) h.1)
    Local-Onward (publish k v i) o h = (
      Claimed-Onward k i o (o.claimed _ refl) h.0,
      rw (o.claimed _ refl) h.1,
      rw (o.claimed _ refl) h.2,
    )
    Local-Onward (inserted k v true) o h = o.grows (k, v) h
    Local-Onward (inserted k v false) o (inl (w, h)) = inl (w, o.grows (k, w) h)
    Local-Onward (inserted k v false) o (inr h) = inr (λ r lt. o.taken _ (h r lt))
    Local-Onward (find_load k i) o h = Differs-Onward k i o h
    Local-Onward (find_ready k i) o h = Differs-Onward k i o h
    Local-Onward (find_key k i) o h = (Differs-Onward k i o h.0, rw (o.written _ h.1) h.1)
    Local-Onward (find_value k i) o h = (rw (o.written _ h.0) h.0, rw (o.written _ h.0) h.1)
    Local-Onward (answered k none) o h = tt
    Local-Onward (answered k (some v)) o h = o.grows (k, v) h

    pub Placed-Onward : {p : Pc K V} (x : K × V) → Onward m log p m' log' → Placed m x → Placed m' x
    Placed-Onward x o (r, lt, h, k, v, t) = (
      r,
      lt,
      rw (o.written _ h) h,
      rw (o.written _ h) k,
      rw (o.written _ h) v,
      λ q le. o.taken _ (t q le),
    )
