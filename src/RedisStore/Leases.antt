-- ===== src/RedisStore/Leases.antt =====
-- A store of the interface: the leases and the room members as two lists of entries.
use text.Mathlib.TextEquality.{eq_iff}
use pulse_distributed_real_t.JsMap.{contains}
use pulse_distributed_real_t.RedisStore.{RedisStore, past, IsRedis, is_from}
use pulse_distributed_real_t.Prelude.{
  List, String, ◌∷◌, ℕ, if◌then◌else◌, Option, ◌=ₛ◌, none, suc, ◌&&◌, [], some, leb, ◌≡◌, arith,
  refl, =ₛ_refl, false, not,
}

pub record Entries : Type 0 where
  pub leases : List (String × String × ℕ)
  pub members : List (String × String)

unfoldable pub lease_of : String → String → List (String × String × ℕ) → Option ℕ
lease_of j n [] = none
lease_of j n ((k, m, x) ∷ l) = if k =ₛ j && m =ₛ n then some x else lease_of j n l

unfoldable pub drop_lease :
    String → String → List (String × String × ℕ) → List (String × String × ℕ)
drop_lease j n [] = []
drop_lease j n ((k, m, x) ∷ l) =
    let rest = drop_lease j n l in if k =ₛ j && m =ₛ n then rest else (k, m, x) ∷ rest

unfoldable pub drop_up_to : String → ℕ → List (String × String × ℕ) → List (String × String × ℕ)
unfolding drop_lease
drop_up_to j now [] = []
drop_up_to j now ((k, m, x) ∷ l) =
    let rest = drop_up_to j now l in
    if k =ₛ j && leb x now then drop_lease k m rest else (k, m, x) ∷ rest

unfoldable pub count_of : String → List (String × String × ℕ) → ℕ
count_of j [] = 0
count_of j ((k, m, x) ∷ l) = let rest = count_of j l in if k =ₛ j then suc rest else rest

unfoldable pub drop_key : String → List (String × String × ℕ) → List (String × String × ℕ)
drop_key j [] = []
drop_key j ((k, m, x) ∷ l) = let rest = drop_key j l in if k =ₛ j then rest else (k, m, x) ∷ rest

unfoldable pub drop_member : String → String → List (String × String) → List (String × String)
drop_member j n [] = []
drop_member j n ((k, m) ∷ l) =
    let rest = drop_member j n l in if k =ₛ j && m =ₛ n then rest else (k, m) ∷ rest

unfoldable pub members_of : String → List (String × String) → List String
members_of j [] = []
members_of j ((k, m) ∷ l) = let rest = members_of j l in if k =ₛ j then m ∷ rest else rest

unfoldable pub without : String → List String → List String
without m [] = []
without m (n ∷ ns) = let rest = without m ns in if m =ₛ n then rest else n ∷ rest

unfoldable pub range_of : String → ℕ → List (String × String × ℕ) → List String
unfolding without
range_of j least [] = []
range_of j least ((k, m, x) ∷ l) =
    let rest = range_of j least l in
    if not (k =ₛ j) then rest else if leb least x then m ∷ without m rest else without m rest

contains-without :
    (m n : String) (ns : List String)
    → contains n (without m ns) ≡ (if m =ₛ n then false else contains n ns)
unfolding without contains
contains-without m n [] = ground arith
contains-without m n (i ∷ ns) =
    ground (arith, contains-without m n ns, eq_iff m i, eq_iff m n, eq_iff i n)

contains-range_of :
    (j : String) (least : ℕ) (n : String) (l : List (String × String × ℕ))
    → contains n (range_of j least l) ≡ is_from least (lease_of j n l)
unfolding range_of contains is_from lease_of
contains-range_of j least n [] = refl
contains-range_of j least n ((k, m, x) ∷ l) =
    ground
      (arith, contains-range_of j least n l, contains-without m n (range_of j least l), eq_iff m n)

unfoldable pub entries_store : RedisStore Entries
unfolding range_of drop_lease drop_up_to count_of lease_of drop_key drop_member members_of
entries_store = record {
  zadd = λ s k x m. record s { leases = (k, m, x) ∷ drop_lease k m s.leases };
  zrem = λ s k m. record s { leases = drop_lease k m s.leases };
  zremrangebyscore = λ s k now. record s { leases = drop_up_to k now s.leases };
  zcard = λ s k. count_of k s.leases;
  zscore = λ s k m. lease_of k m s.leases;
  zrangebyscore = λ s k least. range_of k least s.leases;
  expire = λ s k ttl. s;
  del = λ s k. record s { leases = drop_key k s.leases };
  sadd = λ s k m. record s { members = (k, m) ∷ drop_member k m s.members };
  srem = λ s k m. record s { members = drop_member k m s.members };
  smembers = λ s k. members_of k s.members;
}

lease_of-drop_lease :
    (k m j n : String) (l : List (String × String × ℕ))
    → lease_of j n (drop_lease k m l) ≡ (if k =ₛ j && m =ₛ n then none else lease_of j n l)
unfolding lease_of drop_lease
lease_of-drop_lease k m j n [] = ground arith
lease_of-drop_lease k m j n ((h, i, x) ∷ l) = ground (
  arith,
  lease_of-drop_lease k m j n l,
  eq_iff h j,
  eq_iff i n,
  eq_iff h k,
  eq_iff i m,
  eq_iff k j,
  eq_iff m n,
)

lease_of-drop_up_to :
    (k : String) (now : ℕ) (j n : String) (l : List (String × String × ℕ))
    → lease_of j n (drop_up_to k now l)
      ≡ (if k =ₛ j then past now (lease_of j n l) else lease_of j n l)
unfolding lease_of drop_up_to past
lease_of-drop_up_to k now j n [] = ground arith
lease_of-drop_up_to k now j n ((h, i, x) ∷ l) = ground (
  arith,
  lease_of-drop_up_to k now j n l,
  lease_of-drop_lease h i j n (drop_up_to k now l),
  eq_iff h j,
  eq_iff i n,
  eq_iff h k,
  eq_iff k j,
)

lease_of-drop_key :
    (k j n : String) (l : List (String × String × ℕ))
    → lease_of j n (drop_key k l) ≡ (if k =ₛ j then none else lease_of j n l)
unfolding lease_of drop_key
lease_of-drop_key k j n [] = ground arith
lease_of-drop_key k j n ((h, i, x) ∷ l) =
    ground (arith, lease_of-drop_key k j n l, eq_iff h j, eq_iff h k, eq_iff k j)

lease_of-add :
    (k : String) (x : ℕ) (m j n : String) (l : List (String × String × ℕ))
    → lease_of j n ((k, m, x) ∷ drop_lease k m l)
      ≡ (if k =ₛ j && m =ₛ n then some x else lease_of j n l)
unfolding lease_of
lease_of-add k x m j n l = ground (arith, lease_of-drop_lease k m j n l)

count-zero :
    (k m : String) (l : List (String × String × ℕ)) → count_of k l ≡ 0 → lease_of k m l ≡ none
unfolding lease_of count_of
count-zero k m [] h = refl
count-zero k m ((h, i, x) ∷ l) e = ground (arith, count-zero k m l)

zero-count :
    (k : String) (l : List (String × String × ℕ))
    → ((m : String) → lease_of k m l ≡ none)
    → count_of k l ≡ 0
unfolding lease_of count_of
zero-count k [] h = refl
zero-count k ((h, i, x) ∷ l) f = ground (
  arith,
  f i,
  eq_iff h k,
  =ₛ_refl i,
  zero-count k l (λ m. ground (arith, f m, eq_iff h k, eq_iff i m, f i, =ₛ_refl i)),
)

contains-drop_member :
    (k m j n : String) (l : List (String × String))
    → contains n (members_of j (drop_member k m l))
      ≡ (if k =ₛ j && m =ₛ n then false else contains n (members_of j l))
unfolding contains members_of drop_member
contains-drop_member k m j n [] = ground arith
contains-drop_member k m j n ((h, i) ∷ l) = ground (
  arith,
  contains-drop_member k m j n l,
  eq_iff h j,
  eq_iff i n,
  eq_iff h k,
  eq_iff i m,
  eq_iff k j,
  eq_iff m n,
)

pub entries_store-IsRedis : IsRedis entries_store
unfolding entries_store
entries_store-IsRedis = record {
  zscore-zadd = λ s k x m j n. lease_of-add k x m j n s.leases;
  zscore-zrem = λ s k m j n. lease_of-drop_lease k m j n s.leases;
  zscore-zremrangebyscore = λ s k now j n. lease_of-drop_up_to k now j n s.leases;
  zscore-expire = λ s k ttl j n. refl;
  zscore-del = λ s k j n. lease_of-drop_key k j n s.leases;
  zscore-srem = λ s k m j n. refl;
  zcard-zero = λ s k. (λ h m. count-zero k m s.leases h, λ h. zero-count k s.leases h);
  contains-zrangebyscore = λ s k least m. contains-range_of k least m s.leases;
  smembers-srem = λ s k m j n. contains-drop_member k m j n s.members;
  smembers-zremrangebyscore = λ s k now j. refl;
}
