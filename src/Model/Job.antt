-- ===== src/Model/Job.antt =====
-- internal/model/job.go: a job's expected minions against the returns that came. The two maps are
-- association lists in some order, which is the order in which the code walks them.
pub mod Counters
pub mod Answers
use go_salt_events.Base.{
  Bool, Bytes, List, Option, [], bytes_eq, bytes_ltb, false, if◌then◌else◌, length, ltb, negsuc,
  none, not, pos, some, sort, suc, true, zero, ℕ, ℤ, ◌&&◌, ◌+◌, ◌-◌, ◌==◌, ◌||◌, ◌∷◌,
}
use go_salt_events.Model.Event.{Time, start}

pub data ExpectedState : Type 0 where
  unseen known trimmed : ExpectedState

pub record RetInfo : Type 0 where
  pub minion : Bytes
  pub ret_code : ℤ
  pub success : Bool
  pub arrival : Time

pub record Job : Type 0 where
  pub jid : Bytes
  pub fun : Bytes
  pub tgt : Bytes
  pub tgt_type : Bytes
  pub user : Bytes
  pub start : Time
  pub last_ret : Time
  pub expected_state : ExpectedState
  pub expected : List Bytes
  pub returns : List RetInfo
  pub failed : ℕ
  pub missing : ℕ

-- `NewJob`; the zero `time.Time` is 0.
unfoldable pub new_job : Bytes → Job
new_job jid = record {
  jid = jid;
  fun = [];
  tgt = [];
  tgt_type = [];
  user = [];
  start = 0;
  last_ret = 0;
  expected_state = unseen;
  expected = [];
  returns = [];
  failed = 0;
  missing = 0;
}

-- `_, ok := expected[minion]`
unfoldable pub targets : List Bytes → Bytes → Bool
targets [] m = false
targets (e ∷ es) m = bytes_eq e m || targets es m

-- `returns[minion]`
unfoldable pub find_ret : List RetInfo → Bytes → Option RetInfo
find_ret [] m = none
find_ret (r ∷ rs) m = if bytes_eq r.minion m then some r else find_ret rs m

-- `returns[r.Minion] = r`
unfoldable pub put_ret : List RetInfo → RetInfo → List RetInfo
put_ret [] r = r ∷ []
put_ret (q ∷ rs) r = if bytes_eq q.minion r.minion then r ∷ rs else q ∷ put_ret rs r

abbrev pub is_some {ℓ} : {A : Type ℓ} → Option A → Bool
is_some none = false
is_some (some _) = true

abbrev pub is_zero : ℤ → Bool
is_zero (pos zero) = true
is_zero (pos (suc _)) = false
is_zero (negsuc _) = false

-- `failed`
unfoldable pub is_failed : RetInfo → Bool
is_failed r = not (is_zero r.ret_code) || not r.success

-- `AddExpected`
unfoldable pub add_expected : Job → Bytes → Job
add_expected j minion = if targets j.expected minion then j else record j {
  expected = minion ∷ j.expected;
  missing = if is_some (find_ret j.returns minion) then j.missing else j.missing + 1;
}

abbrev pub prev_failed : Option RetInfo → Bool
prev_failed none = false
prev_failed (some p) = is_failed p

-- `AddReturn`
unfoldable pub add_return : Job → RetInfo → Job
add_return j r =
    let prev = find_ret j.returns r.minion in
    let less = if prev_failed prev then j.failed - 1 else j.failed in
    record j {
      failed = if is_failed r then less + 1 else less;
      missing =
          if not (is_some prev) && targets j.expected r.minion then j.missing - 1 else j.missing;
      returns = put_ret j.returns r;
      last_ret = if ltb j.last_ret r.arrival then r.arrival else j.last_ret;
    }

-- `Returned`
unfoldable pub returned : Job → ℕ
returned j = length j.returns

-- `ExpectedCount`
unfoldable pub expected_count : Job → ℕ × ExpectedState
expected_count j = elim j.expected_state [
  | known ↦ (length j.expected, known)
  | unseen ↦ (0, unseen)
  | trimmed ↦ (0, trimmed)
]

-- The loop of `Missing`: the expected minions with no return.
unfoldable pub not_returned : List RetInfo → List Bytes → List Bytes
not_returned rs [] = []
not_returned rs (m ∷ ms) =
    if is_some (find_ret rs m) then not_returned rs ms else m ∷ not_returned rs ms

-- `Missing`; `none` is `nil, false`.
unfoldable pub missing_minions : Job → Option (List Bytes)
missing_minions j = elim j.expected_state [
  | known ↦ some (sort bytes_ltb (not_returned j.returns j.expected))
  | unseen ↦ none
  | trimmed ↦ none
]

-- `Returns`
unfoldable pub sorted_returns : Job → List RetInfo
sorted_returns j = sort (λ a b. bytes_ltb a.minion b.minion) j.returns

-- `Complete`
unfoldable pub complete : Job → Bool
complete j = elim j.expected_state [ known ↦ j.missing == 0 | unseen ↦ false | trimmed ↦ false ]

pub record JobRow : Type 0 where
  pub jid : Bytes
  pub fun : Bytes
  pub tgt : Bytes
  pub tgt_type : Bytes
  pub user : Bytes
  pub start : Time
  pub last_ret : Time
  pub returned : ℕ
  pub failed : ℕ
  pub complete : Bool
  pub expected : ℕ
  pub expected_state : ExpectedState

-- `JobRow.ExpectedCount`
unfoldable pub row_expected_count : JobRow → ℕ × ExpectedState
row_expected_count r = elim r.expected_state [
  | known ↦ (r.expected, known)
  | unseen ↦ (0, unseen)
  | trimmed ↦ (0, trimmed)
]

-- `Row`
unfoldable pub row : Job → JobRow
unfolding complete
row j = record {
  jid = j.jid;
  fun = j.fun;
  tgt = j.tgt;
  tgt_type = j.tgt_type;
  user = j.user;
  start = j.start;
  last_ret = j.last_ret;
  returned = length j.returns;
  failed = j.failed;
  complete = complete j;
  expected = length j.expected;
  expected_state = j.expected_state;
}
