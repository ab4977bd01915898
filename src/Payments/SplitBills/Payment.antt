-- ===== src/Payments/SplitBills/Payment.antt =====
-- `payShare` of split-bills.service.ts: the payment of a share is created under the participant's key,
-- the saga runs it, and the bill and the transfer are read again.
use p2p_ledger_starter.Payments.Transfers.Requests.{
  TextConfig, SplitSharePayment, create_split_share_payment, RequestFault, get_status,
}
use p2p_ledger_starter.Payments.Transfers.{TransfersConfig}
use p2p_ledger_starter.Payments.Tables.{SplitBill, Transfer, SplitBillShare}
use p2p_ledger_starter.Payments.SplitBills.Shares.{SplitBillFault}
use p2p_ledger_starter.Payments.SplitBills.Bills.{SplitBillView, BillsConfig, get_bill}
use p2p_ledger_starter.Payments.Saga.{SagaError, SagaConfig}
use p2p_ledger_starter.Payments.Saga.Steps.{run}
use p2p_ledger_starter.Payments.World.{World, Action, pure, throw, ◌>>=◌, ◌>>◌, handle}
use p2p_ledger_starter.Common.{ℕ, ◌&&◌, Option, none, some, ◌==◌, if◌then◌else◌}
use p2p_ledger_starter.Common.Dict.{lookup}
use p2p_ledger_starter.Common.Decimal.{Text}

pub record PaymentConfig : Type 0 where
  pub bills : BillsConfig
  pub transfers : TransfersConfig
  pub saga : SagaConfig
  pub texts : TextConfig

pub data PayFault : Type 0 where
  share_not_found : PayFault
  not_paid : RequestFault → PayFault
  saga_failed : SagaError → PayFault
  not_shown : SplitBillFault → PayFault

-- The share of the bill that is the participant's, with its bill.
unfoldable pub find_payable : ℕ → ℕ → ℕ → World → Option (SplitBillShare × SplitBill)
find_payable bill_id share_id participant_user_id w = elim (lookup share_id w.db.shares) [
  | none ↦ none
  | some share ↦ elim (lookup share.bill_id w.db.bills) [
    | none ↦ none
    | some bill ↦
        if share.bill_id == bill_id && share.participant_user_id == participant_user_id
        then some (share, bill)
        else none
  ]
]

abbrev payment_of : SplitBillShare × SplitBill → ℕ → ℕ → SplitSharePayment
payment_of (share, bill) participant_user_id from_wallet_id = record {
  share_id = share.id;
  participant_user_id = participant_user_id;
  from_wallet_id = from_wallet_id;
  receiver_reference = bill.creator_reference;
  amount_minor = share.amount_minor;
  currency = bill.currency;
}

abbrev pay_found :
    PaymentConfig
    → ℕ
    → ℕ
    → ℕ
    → Option Text
    → ℕ
    → Option (SplitBillShare × SplitBill)
    → Action PayFault (SplitBillView × Transfer)
pay_found config bill_id participant_user_id from_wallet_id header now none = throw share_not_found
pay_found config bill_id participant_user_id from_wallet_id header now (some found) =
    handle
      (create_split_share_payment config.transfers config.texts
        (payment_of found participant_user_id from_wallet_id) header)
      (λ e. throw (not_paid e))
    >>= λ transfer.
        handle (run config.saga transfer.id now) (λ e. throw (saga_failed e))
        >> handle (get_bill config.bills bill_id participant_user_id) (λ e. throw (not_shown e))
        >>= λ view.
            handle (get_status config.transfers transfer.id participant_user_id)
              (λ e. throw (not_paid e))
            >>= λ row. pure (view, row)

unfoldable pub pay_share :
    PaymentConfig → ℕ → ℕ → ℕ → ℕ → Option Text → ℕ → Action PayFault (SplitBillView × Transfer)
pay_share config bill_id share_id participant_user_id from_wallet_id header now w0 =
    let w = config.bills.arrive w0 in
    pay_found config bill_id participant_user_id from_wallet_id header now
      (find_payable bill_id share_id participant_user_id w) w
