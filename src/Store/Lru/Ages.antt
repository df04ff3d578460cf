-- ===== src/Store/Lru/Ages.antt =====
-- Lists of keys whose ages grow, as those of the recency list of src/store/lru_policy.cpp do.
use key_value_store.Common.{
  neither, ℕ, suc, ◌<◌, ◌≡◌, false, List, [], ◌∷◌, ◌++◌, Bytes, bytes_eq, if_cases, if_elim, arith,
  All,
}
use key_value_store.Store.Lru.Order.{without, contains}

-- Each key of the list was used after those behind it.
abbrev pub IsByUse : (Bytes → ℕ) → List Bytes → Type 0
IsByUse age [] = Unit {0}
IsByUse age (k ∷ l) = All (λ j. age k < age j) l × IsByUse age l

-- A key grows older by a call that does not use it.
abbrev pub GrowsOlder : (Bytes → ℕ) → (Bytes → ℕ) → List Bytes → Type 0
GrowsOlder age age' l = All (λ j. age' j ≡ suc (age j)) l

front-All {κ} : (P : Bytes → Type κ) (l m : List Bytes) → All P (l ++ m) → All P l
front-All P [] m h = tt
front-All P (k ∷ l) m (h, hs) = (h, front-All P l m hs)

last-All {κ} : (P : Bytes → Type κ) (l : List Bytes) (k : Bytes) → All P (l ++ k ∷ []) → P k
last-All P [] k (h, hs) = h
last-All P (j ∷ l) k (h, hs) = last-All P l k hs

older-All :
    (age age' : Bytes → ℕ) (k : Bytes) (l : List Bytes)
    → age' k ≡ suc (age k)
    → GrowsOlder age age' l
    → All (λ j. age k < age j) l
    → All (λ j. age' k < age' j) l
older-All age age' k [] e g h = tt
older-All age age' k (j ∷ l) e (g, gs) (h, hs) =
    (omega (arith, e, g, h), older-All age age' k l e gs hs)

pub older-IsByUse :
    (age age' : Bytes → ℕ) (l : List Bytes) → GrowsOlder age age' l → IsByUse age l → IsByUse age' l
older-IsByUse age age' [] g h = tt
older-IsByUse age age' (k ∷ l) (g, gs) (h, hs) =
    (older-All age age' k l g gs h, older-IsByUse age age' l gs hs)

All-without {κ} : (P : Bytes → Type κ) (k : Bytes) (l : List Bytes) → All P l → All P (without k l)
unfolding without
All-without P k [] h = tt
All-without P k (j ∷ l) (h, hs) =
    if_elim (All P) (bytes_eq j k) (All-without P k l hs) (h, All-without P k l hs)

pub without-IsByUse :
    (age : Bytes → ℕ) (k : Bytes) (l : List Bytes) → IsByUse age l → IsByUse age (without k l)
unfolding without
without-IsByUse age k [] h = tt
without-IsByUse age k (j ∷ l) (h, hs) =
    if_elim (IsByUse age) (bytes_eq j k) (without-IsByUse age k l hs)
      (All-without (λ i. age j < age i) k l h, without-IsByUse age k l hs)

others-All {κ} :
    (P : Bytes → Type κ) (k : Bytes) (l : List Bytes)
    → ((j : Bytes) → bytes_eq j k ≡ false → P j)
    → All P (without k l)
unfolding without
others-All P k [] h = tt
others-All P k (j ∷ l) h =
    if_cases (All P) (bytes_eq j k) (λ same. others-All P k l h)
      (λ other. (h j other, others-All P k l h))

pub absent-All {κ} :
    (P : Bytes → Type κ) (k : Bytes) (l : List Bytes)
    → contains k l ≡ false
    → ((j : Bytes) → bytes_eq j k ≡ false → P j)
    → All P l
unfolding contains
absent-All P k [] e h = tt
absent-All P k (j ∷ l) e h =
    let (other, absent) = neither (bytes_eq j k) (contains k l) e in
    (h j other, absent-All P k l absent h)

-- A key that was just used comes in front of the others.
pub used-IsByUse :
    (age age' : Bytes → ℕ) (k : Bytes) (l : List Bytes)
    → age' k ≡ 0
    → ((j : Bytes) → bytes_eq j k ≡ false → age' j ≡ suc (age j))
    → IsByUse age l
    → IsByUse age' (k ∷ without k l)
used-IsByUse age age' k l now older h = (
  others-All (λ j. age' k < age' j) k l (λ j other. omega (arith, now, older j other)),
  older-IsByUse age age' (without k l) (others-All (λ j. age' j ≡ suc (age j)) k l older)
      (without-IsByUse age k l h),
)

pub front-IsByUse : (age : Bytes → ℕ) (l m : List Bytes) → IsByUse age (l ++ m) → IsByUse age l
front-IsByUse age [] m h = tt
front-IsByUse age (k ∷ l) m (h, hs) =
    (front-All (λ j. age k < age j) l m h, front-IsByUse age l m hs)

-- The last key is the oldest.
pub last-IsByUse :
    (age : Bytes → ℕ) (l : List Bytes) (last : Bytes)
    → IsByUse age (l ++ last ∷ [])
    → All (λ j. age j < age last) l
last-IsByUse age [] last h = tt
last-IsByUse age (k ∷ l) last (h, hs) =
    (last-All (λ j. age k < age j) l last h, last-IsByUse age l last hs)
