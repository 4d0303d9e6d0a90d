-- ===== src/Consumer/Offset.antt =====
-- What holds whatever the committed offset is.
use koupang.Prelude.{suc, Option, none, some, inl, inr, Bool-cases}
use koupang.Consumer.Loop.{
  Weather, ConsumerState, ProcessResult, success, skipped, sent_to_dlq, dlq_failed, settled_offset,
  commit_offset,
}

pub commit_offset-keeps :
    {S : Type 0} (w : Weather) (P : ConsumerState S → Type 0)
    → ((s : ConsumerState S) → P s → P (record s { offsets_committed = suc s.offsets_committed }))
    → (s : ConsumerState S) → P s
    → P (commit_offset w s)
commit_offset-keeps w P moved s h = elim (Bool-cases w.offset_commits) [
  | inl b ↦ rw b (moved s h)
  | inr b ↦ rw b h
]

-- The offset is of no concern to what holds with any offset.
pub settled_offset-keeps :
    {S : Type 0} (w : Weather) (P : ConsumerState S → Type 0)
    → ((s : ConsumerState S) → P s → P (record s { offsets_committed = suc s.offsets_committed }))
    → (r : Option ProcessResult) (s : ConsumerState S) → P s
    → P (settled_offset w r s)
settled_offset-keeps w P moved none s h = h
settled_offset-keeps w P moved (some success) s h = commit_offset-keeps w P moved s h
settled_offset-keeps w P moved (some skipped) s h = commit_offset-keeps w P moved s h
settled_offset-keeps w P moved (some sent_to_dlq) s h = commit_offset-keeps w P moved s h
settled_offset-keeps w P moved (some dlq_failed) s h = h
settled_offset-keeps w P moved (some ProcessResult.db_error) s h = h
