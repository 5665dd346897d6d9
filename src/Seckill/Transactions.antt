-- ===== src/Seckill/Transactions.antt =====
-- infra/repository/gorm.go: the operations on a request, each one transaction but for `mark_fail`.
use douyin_mall.Base.{
  ℕ, String, Bool, true, false, ◌&&◌, not, ◌==◌, Result, ok, err, if◌then◌else◌, pure, raise,
  raise_if, attempt, ◌>>=◌, ◌>>◌, transaction,
}
use douyin_mall.Seckill.Domain.{
  RequestStatus, processing, order_creating, success, failed, ◌==ʳ◌, Request, Event, Error,
  duplicate_entry, wrong_status, conditional_update_failed, call_failed, out_of_stock_reason,
  user_already_succeeded_reason,
}
use douyin_mall.Seckill.Store.{
  RequestRow, Db, to_domain_request, has_activity_id, has_request_no, has_request_no_and_status,
}
use douyin_mall.Seckill.Repository.{
  first_request, update_requests, update_stock, minus_one, is_on_sale, create_qualification,
  delete_qualification, qualification_of,
}

abbrev pub moved_to : RequestStatus → String → RequestRow → Request
moved_to s reason m = to_domain_request (record m { status = s; fail_reason = reason })

-- `RowsAffected` is not read where the request fails, and must not be 0 where it goes on.
abbrev pub give_up : Event → RequestRow → String → Db Request
give_up e m reason = do
  update_requests (has_request_no_and_status e.request_no processing) failed reason
  pure (moved_to failed reason m)

abbrev pub go_on : String → RequestRow → RequestStatus → RequestStatus → String → Db Request
go_on n m from to reason = do
  k ← update_requests (has_request_no_and_status n from) to reason
  raise_if (k == 0) conditional_update_failed
  pure (moved_to to reason m)

abbrev pub after_stock : Event → RequestRow → ℕ → Db Request
after_stock e m k =
    if k == 0
    then (delete_qualification e.activity_id e.user_id e.request_no
        >> give_up e m out_of_stock_reason)
    else go_on e.request_no m processing order_creating ""

abbrev pub after_qualification : ℕ → Event → RequestRow → Result Error (Unit {0}) → Db Request
after_qualification now e m (err duplicate_entry) = give_up e m user_already_succeeded_reason
after_qualification now e m (err x) = raise x
after_qualification now e m (ok _) = do
  k ← update_stock (is_on_sale e.activity_id now) minus_one
  after_stock e m k

-- The switch on the status that was read; the clauses name the status first.
abbrev pub advance_from : ℕ → Event → RequestRow → RequestStatus → Db Request
advance_from now e m processing = do
  r ← attempt (create_qualification (qualification_of e))
  after_qualification now e m r
advance_from now e m order_creating = pure (to_domain_request m)
advance_from now e m success = pure (to_domain_request m)
advance_from now e m failed = pure (to_domain_request m)
advance_from now e m (RequestStatus.other s) = raise wrong_status

unfoldable pub advance_processing : ℕ → Event → Db Request
advance_processing now e =
    transaction call_failed do m ← first_request e.request_no; advance_from now e m m.status

abbrev pub complete_from : Event → RequestRow → RequestStatus → Db Request
complete_from e m success = pure (to_domain_request m)
complete_from e m order_creating = go_on e.request_no m order_creating success ""
complete_from e m s = raise wrong_status

unfoldable pub complete_order_creating : Event → Db Request
complete_order_creating e =
    transaction call_failed do m ← first_request e.request_no; complete_from e m m.status

abbrev pub rollback_from : Event → String → RequestRow → RequestStatus → Db Request
rollback_from e reason m failed = pure (to_domain_request m)
rollback_from e reason m order_creating = do
  update_stock (has_activity_id e.activity_id) 1
  delete_qualification e.activity_id e.user_id e.request_no
  go_on e.request_no m order_creating failed reason
rollback_from e reason m s = raise wrong_status

unfoldable pub rollback_order_creating : Event → String → Db Request
rollback_order_creating e reason =
    transaction call_failed do m ← first_request e.request_no; rollback_from e reason m m.status

-- The request and whether it has changed.
abbrev pub is_open : String → RequestRow → Bool
is_open n m = has_request_no n m && not (m.status ==ʳ failed)

abbrev pub closed : String → RequestRow → ℕ → Db (Request × Bool)
closed reason m k =
    if k == 0 then pure (to_domain_request m, false) else pure (moved_to failed reason m, true)

abbrev pub close_row : String → String → RequestRow → Db (Request × Bool)
close_row n reason m = do k ← update_requests (is_open n) failed reason; closed reason m k

abbrev pub give_back : RequestRow → Db (Unit {0})
give_back m = do
  update_stock (has_activity_id m.activity_id) 1
  delete_qualification m.activity_id m.user_id m.request_no

abbrev pub close_from : String → String → RequestRow → RequestStatus → Db (Request × Bool)
close_from n reason m failed = pure (to_domain_request m, false)
close_from n reason m processing = close_row n reason m
close_from n reason m order_creating = give_back m >> close_row n reason m
close_from n reason m success = give_back m >> close_row n reason m
close_from n reason m (RequestStatus.other s) = pure (to_domain_request m, false)

unfoldable pub close_by_order_result : String → String → Db (Request × Bool)
close_by_order_result n reason =
    transaction call_failed do m ← first_request n; close_from n reason m m.status

-- No transaction, and no condition on the status.
unfoldable pub mark_fail : String → String → Db (Unit {0})
mark_fail n reason = do update_requests (has_request_no n) failed reason; pure tt
