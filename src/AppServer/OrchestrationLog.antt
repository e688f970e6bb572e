-- ===== src/AppServer/OrchestrationLog.antt =====
-- app_server/orchestration_log.py: the ring buffer of the demo's flow panel. `now` is the text of the
-- clock at the record.
use krafton_week.Prelude.{ℕ, zero, suc, String, ◌≡◌, refl, ◌∙◌, ap, Option, List, [], ◌∷◌, take}

pub record OrchestrationLogEntry : Type 0 where
  pub timestamp : String
  pub source : String
  pub target : String
  pub action : String
  pub status : String
  pub event_id : Option String
  pub seat_id : Option String
  pub user_id : Option String
  pub detail : Option String

-- The deque, and its `maxlen`.
pub record OrchestrationLogStore : Type 0 where
  pub limit : ℕ
  pub entries : List OrchestrationLogEntry

-- `OrchestrationLogStore(limit)`
unfoldable pub empty_log : ℕ → OrchestrationLogStore
empty_log limit = record { limit = limit; entries = [] }

-- `appendleft` on a deque that is full drops the entry at the other end.
abbrev appendleft : OrchestrationLogEntry → OrchestrationLogStore → OrchestrationLogStore
appendleft entry log = record log { entries = take log.limit (entry ∷ log.entries) }

unfoldable pub record_entry :
    String
    → String
    → String
    → String
    → String
    → Option String
    → Option String
    → Option String
    → Option String
    → OrchestrationLogStore
    → OrchestrationLogStore
record_entry now source target action status event_id seat_id user_id detail = appendleft (record {
  timestamp = now;
  source = source;
  target = target;
  action = action;
  status = status;
  event_id = event_id;
  seat_id = seat_id;
  user_id = user_id;
  detail = detail;
})

unfoldable pub list_entries : ℕ → OrchestrationLogStore → List OrchestrationLogEntry
list_entries limit log = take limit log.entries

unfoldable pub clear : OrchestrationLogStore → OrchestrationLogStore
clear log = record log { entries = [] }

-- The entries of a run of records, the last first, in front of those that were there.
abbrev pub all_records :
    List OrchestrationLogEntry → List OrchestrationLogEntry → List OrchestrationLogEntry
all_records [] old = old
all_records (entry ∷ entries) old = all_records entries (entry ∷ old)

abbrev pub record_all : List OrchestrationLogEntry → OrchestrationLogStore → OrchestrationLogStore
record_all [] log = log
record_all (entry ∷ entries) log = record_all entries (appendleft entry log)

take-take : {A : Type 0} (n : ℕ) (xs : List A) → take n (take (suc n) xs) ≡ take n xs
take-take zero xs = refl
take-take (suc n) [] = refl
take-take (suc n) (x ∷ xs) = ap (◌∷◌ x) (take-take n xs)

take-cons : {A : Type 0} (n : ℕ) (x : A) (xs : List A) → take n (x ∷ take n xs) ≡ take n (x ∷ xs)
take-cons zero x xs = refl
take-cons (suc n) x xs = ap (◌∷◌ x) (take-take n xs)

entries-record_all :
    (n : ℕ) (entries old : List OrchestrationLogEntry)
    → (record_all entries (record { limit = n; entries = take n old })).entries
      ≡ take n (all_records entries old)
entries-record_all n [] old = refl
entries-record_all n (entry ∷ entries) old =
    ap
      (λ (xs : List OrchestrationLogEntry).
        (record_all entries (record { limit = n; entries = xs })).entries)
      (take-cons n entry old)
    ∙ entries-record_all n entries (entry ∷ old)

empty_entries :
    (n : ℕ) (entries : List OrchestrationLogEntry)
    → (record_all entries (record { limit = n; entries = [] })).entries
      ≡ take n (all_records entries [])
empty_entries zero entries = entries-record_all zero entries []
empty_entries (suc n) entries = entries-record_all (suc n) entries []

-- After any records in a new log of the size `n`, a list of at most `k` entries shows the last
-- records, the latest first: the first `k` of the first `n` of them.
pub list_entries_latest :
    (n k : ℕ) (entries : List OrchestrationLogEntry)
    → list_entries k (record_all entries (empty_log n)) ≡ take k (take n (all_records entries []))
unfolding list_entries empty_log
list_entries_latest n k entries = ap (take k) (empty_entries n entries)
