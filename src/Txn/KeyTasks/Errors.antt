-- ===== src/Txn/KeyTasks/Errors.antt =====
-- What stores say to the requests of a commit, a rollback or a resolution of locks, and what the tasks make
-- of it.
use dingo_sdk.Base.{Bool, true, false, none, some, ◌≡◌, ◌⊎◌, inl, inr, refl}
use dingo_sdk.Outcome.{done, Returns}
use dingo_sdk.Status.{is_ok, ok}
use dingo_sdk.Txn.Task.{LockInfo, TxnResultInfo, check_txn_result_info}
use dingo_sdk.Txn.KeyTasks.{
  KeysTask, txn_commit, txn_batch_rollback, txn_resolve_lock, KeysReply, status_of,
  process_txn_commit_response, check_result,
}

-- A response without an error.
abbrev pub clean_reply : KeysReply
clean_reply = record { status = ok; txn_result = none; has_commit_ts_expired = false }

-- What a store may say of a transaction, and the response that says only this.
pub data TxnError : Type 0 where
  locked : LockInfo → TxnError
  not_found write_conflict primary_mismatch commit_ts_expired : TxnError

abbrev pub no_error : TxnResultInfo
no_error = record {
  locked = none;
  has_write_conflict = false;
  has_txn_not_found = false;
  has_primary_mismatch = false;
}

abbrev pub error_reply : TxnError → KeysReply
error_reply (locked l) = record clean_reply {
  txn_result = some (record no_error { locked = some l });
}
error_reply not_found = record clean_reply {
  txn_result = some (record no_error { has_txn_not_found = true });
}
error_reply write_conflict = record clean_reply {
  txn_result = some (record no_error { has_write_conflict = true });
}
error_reply primary_mismatch = record clean_reply {
  txn_result = some (record no_error { has_primary_mismatch = true });
}
error_reply commit_ts_expired = record clean_reply {
  txn_result = some no_error;
  has_commit_ts_expired = true;
}

-- The errors on which a request of the task counts as refused. Left out are those that the tasks do not
-- look at: for a commit a lock, and an expired timestamp of a key that is not the primary one; for the
-- other two an expired timestamp. A transaction that is not found ends the process of a commit.
abbrev pub refuses : KeysTask → TxnError → Bool
refuses (txn_commit is_primary start_ts commit_ts) write_conflict = true
refuses (txn_commit is_primary start_ts commit_ts) primary_mismatch = true
refuses (txn_commit is_primary start_ts commit_ts) commit_ts_expired = is_primary
refuses (txn_commit is_primary start_ts commit_ts) (locked l) = false
refuses (txn_commit is_primary start_ts commit_ts) not_found = false
refuses (txn_batch_rollback start_ts) commit_ts_expired = false
refuses (txn_batch_rollback start_ts) e = true
refuses (txn_resolve_lock lock_ts commit_ts) commit_ts_expired = false
refuses (txn_resolve_lock lock_ts commit_ts) e = true

abbrev pub IsRefused : KeysTask → KeysReply → Type 0
IsRefused task r =
    (is_ok r.status ≡ false) ⊎ ((e : TxnError) × (refuses task e ≡ true) × (r ≡ error_reply e))

pub clean_accepted : (task : KeysTask) → status_of task clean_reply ≡ done ok
unfolding status_of process_txn_commit_response check_result
clean_accepted (txn_commit p s c) = refl
clean_accepted (txn_batch_rollback s) = refl
clean_accepted (txn_resolve_lock s c) = refl

call_failed :
    (task : KeysTask) (r : KeysReply)
    → is_ok r.status ≡ false
    → Returns (status_of task r) λ s. is_ok s ≡ false
unfolding status_of
call_failed (txn_commit p s c) r h = rw (status_of, h) h
call_failed (txn_batch_rollback s) r h = rw (status_of, h) h
call_failed (txn_resolve_lock s c) r h = rw (status_of, h) h

error_refused :
    (task : KeysTask) (e : TxnError)
    → refuses task e ≡ true
    → Returns (status_of task (error_reply e)) λ s. is_ok s ≡ false
unfolding status_of process_txn_commit_response check_result check_txn_result_info
error_refused (txn_commit p s c) write_conflict h = refl
error_refused (txn_commit p s c) primary_mismatch h = refl
error_refused (txn_commit p s c) commit_ts_expired h = rw (h) refl
error_refused (txn_commit p s c) (locked l) h = cc (h)
error_refused (txn_commit p s c) not_found h = cc (h)
error_refused (txn_batch_rollback s) commit_ts_expired h = cc (h)
error_refused (txn_batch_rollback s) (locked l) h = refl
error_refused (txn_batch_rollback s) not_found h = refl
error_refused (txn_batch_rollback s) write_conflict h = refl
error_refused (txn_batch_rollback s) primary_mismatch h = refl
error_refused (txn_resolve_lock s c) commit_ts_expired h = cc (h)
error_refused (txn_resolve_lock s c) (locked l) h = refl
error_refused (txn_resolve_lock s c) not_found h = refl
error_refused (txn_resolve_lock s c) write_conflict h = refl
error_refused (txn_resolve_lock s c) primary_mismatch h = refl

pub refused_fails :
    (task : KeysTask) (r : KeysReply)
    → IsRefused task r
    → Returns (status_of task r) λ s. is_ok s ≡ false
refused_fails task r (inl h) = call_failed task r h
refused_fails task r (inr (e, h, q)) = rw (q) (error_refused task e h)
