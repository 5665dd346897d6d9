-- ===== src/Payment/Tests.antt =====
-- Tests of the payment service, and its theorems at small tables.
use douyin_mall.Base.{
  ◌≡◌, ◌⊎◌, refl, true, false, none, some, [], ◌∷◌, World, ok, trim_space, is_space, parse_int64,
  ◌-◌,
}
use douyin_mall.Payment.{
  Payment, success, init, Tables, CallbackCmd, update_payment_by_txn, ensure_payment_record,
  apply_provider_result, trim_cmd, native_cb_type_to_status, apply_result, add, next_payment_status,
  to_domain_payment,
}
use douyin_mall.Payment.Graph.{Step}
use douyin_mall.Payment.StateMachine.{apply_provider_result-Step}
use douyin_mall.Payment.Callback.{Outcome, update_payment_by_txn-Outcome}
use douyin_mall.Payment.Events.{IsConsistent, update_payment_by_txn-IsConsistent}
use douyin_mall.Payment.Prepay as Prepay
use douyin_mall.Payment.Prepay.{ensure_payment_record-Outcome}
use douyin_mall.Payment.Replay.{update_payment_by_txn-repeat}

trimmed : trim_space " 42\n" ≡ "42"
unfolding trim_space is_space
trimmed = refl

parsed : parse_int64 "-42" ≡ some (18_446_744_073_709_551_616 - 42)
unfolding parse_int64
parsed = refl

too_large : parse_int64 "9223372036854775808" ≡ none
unfolding parse_int64
too_large = refl

abbrev waiting : Payment
waiting = record {
  id = 1;
  amt = record { currency = "CNY"; total = 150 };
  biz_trade_no = "7";
  description = "order 7";
  status = init;
  txn_id = "";
}

abbrev told : Payment
told = record {
  id = 0;
  amt = record { currency = ""; total = 0 };
  biz_trade_no = "7";
  description = "";
  status = success;
  txn_id = "wx_1";
}

apply_provider_result-Step_example :
    let tr = apply_provider_result waiting told in
    Step waiting.status tr.payment.status tr.status_changed
    × ((waiting.txn_id ≡ "") ⊎ (tr.payment.txn_id ≡ waiting.txn_id))
    × ((tr.should_persist ≡ true) ⊎ (tr.payment ≡ waiting))
    × (tr.payment ≡ record waiting { status = tr.payment.status; txn_id = tr.payment.txn_id })
apply_provider_result-Step_example = apply_provider_result-Step waiting told

abbrev ledger : World Tables
ledger = record {
  store = record {
    payments =
        record {
          id = 1;
          status = init;
          updated_at = 5;
          amt = 150;
          currency = "CNY";
          description = "order 7";
          biz_trade_no = "7";
          txn_id = none;
        }
        ∷ [];
    next_id = 2;
    outbox = [];
    next_outbox_id = 1;
  };
  tick = 0;
  fails = λ n. false;
}

abbrev callback : CallbackCmd
callback = record { trade_state = "SUCCESS"; transaction_id = "wx_1"; out_trade_no = "7" }

update_payment_by_txn-Outcome_example :
    Outcome 10 callback ledger (update_payment_by_txn 10 callback ledger)
update_payment_by_txn-Outcome_example = update_payment_by_txn-Outcome 10 callback ledger

update_payment_by_txn-IsConsistent_example :
    IsConsistent (update_payment_by_txn 10 callback ledger).1.store
update_payment_by_txn-IsConsistent_example =
    update_payment_by_txn-IsConsistent 10 callback ledger (tt, tt)

abbrev notified : World Tables
notified = (update_payment_by_txn 10 callback ledger).1

callback_done : update_payment_by_txn 10 callback ledger ≡ (ok tt, notified)
unfolding update_payment_by_txn native_cb_type_to_status apply_result add apply_provider_result
    next_payment_status trim_cmd trim_space is_space parse_int64 to_domain_payment
callback_done = refl

update_payment_by_txn-repeat_example :
    let u = (update_payment_by_txn 20 callback notified).1 in
    (u.store.payments ≡ notified.store.payments) × (u.store.outbox ≡ notified.store.outbox)
update_payment_by_txn-repeat_example =
    update_payment_by_txn-repeat 10 20 callback ledger notified notified callback_done refl

ensure_payment_record-Outcome_example :
    Prepay.Outcome 10 waiting ledger (ensure_payment_record 10 waiting ledger)
ensure_payment_record-Outcome_example = ensure_payment_record-Outcome 10 waiting ledger
