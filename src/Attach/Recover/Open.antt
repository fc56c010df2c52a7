-- ===== src/Attach/Recover/Open.antt =====
-- The operations that are active in the journal, in its order, and what a step on a record does to them
-- (services/provider_attach_transaction.rs).
use lam.Prelude.{
  ℕ, zero, suc, String, true, ◌==◌, string_eq, some, List, [], ◌∷◌, ◌++◌, ◌≡◌, refl, ◌∙◌, ap, arith,
  count, length, map, ◌-◌, min, take, drop, retain, if◌then◌else◌, eq_refl,
}
use lam.Prelude.Keyed.{get, update}
use lam.Attach.Journal.{AttachJournalRecord, is_open, operation_of}

-- the ids of the active records
abbrev pub open_ids : List AttachJournalRecord → List String
open_ids records = map operation_of (retain is_open records)

-- the first occurrence of an id is struck out
abbrev pub strike : String → List String → List String
strike id [] = []
strike id (x ∷ xs) = let rest = strike id xs in if x == id then xs else x ∷ rest

abbrev pub strike_all : List String → List String → List String
strike_all [] xs = xs
strike_all (id ∷ ids) xs = strike_all ids (strike id xs)

pub strike_all-append :
    (ids others xs : List String)
    → strike_all (ids ++ others) xs ≡ strike_all others (strike_all ids xs)
strike_all-append [] others xs = refl
strike_all-append (id ∷ ids) others xs = strike_all-append ids others (strike id xs)

pub strike_all-take : (n : ℕ) (xs : List String) → strike_all (take n xs) xs ≡ drop n xs
strike_all-take zero xs = refl
strike_all-take (suc n) [] = refl
strike_all-take (suc n) (x ∷ xs) =
    ap (strike_all (take n xs)) (strike_own x xs) ∙ strike_all-take n xs
  where
    strike_own : (x : String) (xs : List String) → strike x (x ∷ xs) ≡ xs
    strike_own x xs = rw (eq_refl x) refl

-- one active record is changed, and keeps its id
pub open_ids-update :
    (id : String) (f : AttachJournalRecord → AttachJournalRecord)
    → ((x : AttachJournalRecord) → operation_of (f x) ≡ operation_of x)
    → (rs : List AttachJournalRecord) (r : AttachJournalRecord) → get operation_of id rs ≡ some r
    → is_open r ≡ true
    → open_ids (update operation_of id f rs)
      ≡ (if is_open (f r) then open_ids rs else strike id (open_ids rs))
open_ids-update id f same [] r h o = ground arith
open_ids-update id f same (y ∷ rs) r h o = ground (arith, same y, open_ids-update id f same rs r)

pub length-open_ids : (rs : List AttachJournalRecord) → length (open_ids rs) ≡ count is_open rs
length-open_ids [] = refl
length-open_ids (r ∷ rs) = ground (arith, length-open_ids rs)

pub open_ids-take :
    (n : ℕ) (rs : List AttachJournalRecord)
    → map operation_of (take n (retain is_open rs)) ≡ take n (open_ids rs)
open_ids-take n rs = map-take n (retain is_open rs)
  where
    map-take :
        (n : ℕ) (xs : List AttachJournalRecord)
        → map operation_of (take n xs) ≡ take n (map operation_of xs)
    map-take zero xs = refl
    map-take (suc n) [] = refl
    map-take (suc n) (x ∷ xs) = ap (λ t. x.operation_id ∷ t) (map-take n xs)

pub length-drop : {A : Type 0} (n : ℕ) (xs : List A) → length (drop n xs) ≡ length xs - n
length-drop zero xs = ground arith
length-drop (suc n) [] = ground arith
length-drop (suc n) (x ∷ xs) = ground (arith, length-drop n xs)

pub length-take : {A : Type 0} (n : ℕ) (xs : List A) → length (take n xs) ≡ min n (length xs)
length-take zero xs = ground arith
length-take (suc n) [] = ground arith
length-take (suc n) (x ∷ xs) = ground (arith, length-take n xs)

pub length-map : (xs : List AttachJournalRecord) → length (map operation_of xs) ≡ length xs
length-map [] = refl
length-map (x ∷ xs) = ground (arith, length-map xs)
