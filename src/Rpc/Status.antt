-- ===== src/Rpc/Status.antt =====
-- internal/rpc/status.go: what a status says of a response and of a retry.
use gossipcache.Common.{Bool, ◌==◌, ◌||◌}
use gossipcache.Wire.Status.{Status, status_ok, status_err_write_confirm_timeout, status_retryable}

unfoldable pub status_carries_committed_version : Status → Bool
status_carries_committed_version s = s == status_ok || s == status_err_write_confirm_timeout

unfoldable pub status_carries_get_record : Status → Bool
status_carries_get_record s = s == status_ok

unfoldable pub retry_same_mutation_id : Status → Bool
unfolding status_retryable
retry_same_mutation_id s = status_retryable s
