-- ===== src/RateLimit/Bounds.antt =====
-- The memory of the limiter is bounded and its dictionary stays one: what each operation of
-- unify_llm/rate_limit.py keeps.
use unify_llm.Prelude.{
  ℕ, zero, suc, ◌+◌, ◌-◌, ◌≤◌, String, ◌≡◌, ◌∙◌, refl, sym, ap, true, some, none, [], ◌∷◌, arith,
  is_some, if◌then◌else◌, length, take, keep, length-take,
}
use unify_llm.Prelude.Dict.{
  Dict, lookup, insert, erase, contains, IsDict, lookup-erase, insert-IsDict, erase-IsDict,
  length-erase_le, length-erase,
}
use unify_llm.Prelude.Text.{eq_iff, str_eq}
use unify_llm.RateLimit.{
  RateLimiter, max_tracked_clients, insert_by_time, sort_by_time, erase_all, drop_oldest, prune,
  refill, stale, level,
}

abbrev Buckets : Type 0
Buckets = Dict (ℕ × ℕ)

pub record IsValid (s : RateLimiter) : Type 0 where
  pub is_dict : IsDict s.buckets
  pub tracked : length s.buckets ≤ max_tracked_clients + 1

erase_all-IsDict : (l d : Buckets) → IsDict d → IsDict (erase_all l d)
unfolding erase_all
erase_all-IsDict [] d h = h
erase_all-IsDict ((k, _) ∷ l) d h = erase_all-IsDict l (erase k d) (erase-IsDict k d h)

length-erase_all_le : (l d : Buckets) → length (erase_all l d) ≤ length d
unfolding erase_all
length-erase_all_le [] d = omega arith
length-erase_all_le ((k, _) ∷ l) d =
    omega (arith, length-erase_all_le l (erase k d), length-erase_le k d)

-- The keys of `l` are distinct and all in `d`.
abbrev AllIn : Buckets → Buckets → Type 0
AllIn [] d = Unit
AllIn ((k, _) ∷ l) d = (contains k d ≡ true) × AllIn l d

-- A key that `l` lacks can go from `d`.
AllIn-erase : (k : String) (l d : Buckets) → lookup k l ≡ none → AllIn l d → AllIn l (erase k d)
unfolding lookup
AllIn-erase k [] d h a = tt
AllIn-erase k ((j, v) ∷ l) d h a =
    ground (arith, AllIn-erase k l d, lookup-erase k j d, eq_iff j k, eq_iff k j)

-- Distinct keys of the dictionary are each erased once.
length-erase_all :
    (l d : Buckets) → IsDict d → IsDict l → AllIn l d → length (erase_all l d) + length l ≡ length d
unfolding erase_all
length-erase_all [] d h k a = omega arith
length-erase_all ((k, v) ∷ l) d h u a = omega (
  arith,
  length-erase_all l (erase k d) (erase-IsDict k d h) u.1 (AllIn-erase k l d u.0 a.1),
  length-erase k d h a.0,
)

lookup-insert_by_time :
    (j k : String) (e : ℕ × ℕ) (l : Buckets)
    → lookup k l ≡ none
    → lookup j (insert_by_time (k, e) l) ≡ (if str_eq k j then some e else lookup j l)
unfolding lookup insert_by_time
lookup-insert_by_time j k (v, t) [] h = refl
lookup-insert_by_time j k (v, t) ((i, (w, u)) ∷ l) h =
    ground (arith, lookup-insert_by_time j k (v, t) l, eq_iff k j, eq_iff i j, eq_iff i k)

length-insert_by_time :
    (e : String × (ℕ × ℕ)) (l : Buckets) → length (insert_by_time e l) ≡ suc (length l)
unfolding insert_by_time
length-insert_by_time e [] = refl
length-insert_by_time (k, (v, t)) ((j, (w, u)) ∷ l) =
    ground (arith, length-insert_by_time (k, (v, t)) l)

insert_by_time-IsDict :
    (k : String) (e : ℕ × ℕ) (l : Buckets)
    → lookup k l ≡ none
    → IsDict l
    → IsDict (insert_by_time (k, e) l)
unfolding lookup insert_by_time
insert_by_time-IsDict k (v, t) [] h d = (refl, tt)
insert_by_time-IsDict k (v, t) ((i, (w, u)) ∷ l) h d = ground (
  arith,
  insert_by_time-IsDict k (v, t) l,
  lookup-insert_by_time i k (v, t) l,
  eq_iff i k,
  eq_iff k i,
)

lookup-sort_by_time : (j : String) (l : Buckets) → IsDict l → lookup j (sort_by_time l) ≡ lookup j l
unfolding lookup sort_by_time
lookup-sort_by_time j [] h = refl
lookup-sort_by_time j ((k, e) ∷ l) h = ground (
  arith,
  lookup-insert_by_time j k e (sort_by_time l),
  lookup-sort_by_time j l h.1,
  lookup-sort_by_time k l h.1,
)

sort_by_time-IsDict : (l : Buckets) → IsDict l → IsDict (sort_by_time l)
unfolding sort_by_time
sort_by_time-IsDict [] h = tt
sort_by_time-IsDict ((k, e) ∷ l) h =
    insert_by_time-IsDict k e (sort_by_time l) (lookup-sort_by_time k l h.1 ∙ h.0)
      (sort_by_time-IsDict l h.1)

length-sort_by_time : (l : Buckets) → length (sort_by_time l) ≡ length l
unfolding sort_by_time
length-sort_by_time [] = refl
length-sort_by_time (e ∷ l) =
    omega (arith, length-insert_by_time e (sort_by_time l), length-sort_by_time l)

AllIn-of_lookup :
    (l d : Buckets)
    → IsDict l
    → ((j : String) → contains j l ≡ true → contains j d ≡ true)
    → AllIn l d
unfolding lookup
AllIn-of_lookup [] d u h = tt
AllIn-of_lookup ((k, v) ∷ l) d u h = (
  h k (ground (arith, eq_iff k k)),
  AllIn-of_lookup l d u.1 λ j c. h j (ground (arith, eq_iff k j)),
)

AllIn-take : (n : ℕ) (l d : Buckets) → AllIn l d → AllIn (take n l) d
AllIn-take zero l d a = tt
AllIn-take (suc n) [] d a = tt
AllIn-take (suc n) ((k, v) ∷ l) d a = (a.0, AllIn-take n l d a.1)

lookup-take-none :
    (n : ℕ) (k : String) (l : Buckets) → lookup k l ≡ none → lookup k (take n l) ≡ none
unfolding lookup
lookup-take-none zero k l h = refl
lookup-take-none (suc n) k [] h = refl
lookup-take-none (suc n) k ((j, v) ∷ l) h = ground (arith, lookup-take-none n k l)

take-IsDict : (n : ℕ) (l : Buckets) → IsDict l → IsDict (take n l)
take-IsDict zero l h = tt
take-IsDict (suc n) [] h = tt
take-IsDict (suc n) ((k, v) ∷ l) h = (lookup-take-none n k l h.0, take-IsDict n l h.1)

-- The extras that the second step of a pruning takes out are exactly as many as it counted.
length-drop_oldest : (d : Buckets) → IsDict d → length (drop_oldest d) ≤ max_tracked_clients
unfolding drop_oldest
length-drop_oldest d h =
    let extras : ℕ = length d - max_tracked_clients in
    let sorted : IsDict (sort_by_time d) = sort_by_time-IsDict d h in
    let all_in : AllIn (sort_by_time d) d =
      AllIn-of_lookup (sort_by_time d) d sorted
        (λ j c. ap is_some (sym (lookup-sort_by_time j d h)) ∙ c) in
    ground (
      arith,
      length-erase_all (take extras (sort_by_time d)) d h
          (take-IsDict extras (sort_by_time d) sorted)
          (AllIn-take extras (sort_by_time d) d all_in),
      length-take extras (sort_by_time d),
      length-sort_by_time d,
    )

drop_oldest-IsDict : (d : Buckets) → IsDict d → IsDict (drop_oldest d)
unfolding drop_oldest
drop_oldest-IsDict d h =
    ground (arith, erase_all-IsDict (take (length d - max_tracked_clients) (sort_by_time d)) d h)

pub prune-IsDict : (now : ℕ) (d : Buckets) → IsDict d → IsDict (prune now d)
unfolding prune
prune-IsDict now d h = ground (
  arith,
  drop_oldest-IsDict (erase_all (keep (stale now) d) d) (erase_all-IsDict (keep (stale now) d) d h),
)

-- Whatever the table holds, a pruning leaves at most 1024 clients in it.
pub length-prune : (now : ℕ) (d : Buckets) → IsDict d → length (prune now d) ≤ max_tracked_clients
unfolding prune
length-prune now d h = ground (
  arith,
  length-drop_oldest (erase_all (keep (stale now) d) d) (erase_all-IsDict (keep (stale now) d) d h),
)

module _ (client : String) (now : ℕ) (s : RateLimiter) (v : IsValid s) where
  refilled-IsDict : IsDict (insert client (level s (lookup client s.buckets) now, now) s.buckets)
  refilled-IsDict =
      insert-IsDict client (level s (lookup client s.buckets) now, now) s.buckets v.is_dict

  pub refill-tracked : length (refill client now s).1.buckets ≤ max_tracked_clients
  unfolding refill
  refill-tracked =
      length-prune now (insert client (level s (lookup client s.buckets) now, now) s.buckets)
        refilled-IsDict

  pub refill-IsValid : IsValid (refill client now s).1
  unfolding refill
  refill-IsValid = record {
    is_dict =
        prune-IsDict now (insert client (level s (lookup client s.buckets) now, now) s.buckets)
          refilled-IsDict;
    tracked = omega (arith, refill-tracked);
  }
