-- ===== src/Payments/Transfers/Requests.antt =====
-- The requests of transfers.service.ts: what they are read into, and the status of a transfer. Trimming and the cases of letters are parameters; a number of a request enters by
-- what the code asks of it.
use p2p_ledger_starter.Payments.Transfers.{
  TransfersConfig, CreateFault, CanonicalTransferRequest, create_canonical,
}
use p2p_ledger_starter.Payments.Tables.{Transfer}
use p2p_ledger_starter.Payments.World.{Action, pure, throw, lift, ◌>>=◌, handle}
use p2p_ledger_starter.Common.{
  ℕ, Bool, ◌&&◌, Option, none, some, [], ◌∷◌, length, Result, ok, err, leb, ◌==◌, if◌then◌else◌,
}
use p2p_ledger_starter.Common.Dict.{lookup}
use p2p_ledger_starter.Common.Decimal.{Text}

pub record TextConfig : Type 0 where
  pub trim : Text → Text
  pub to_lower : Text → Text
  pub to_upper : Text → Text

-- `amount`: whether it is finite, positive and within 1e-8 of whole minor units, and
-- `Math.round(amount * 100)`.
pub record RequestAmount : Type 0 where
  pub is_finite : Bool
  pub is_positive : Bool
  pub is_exact : Bool
  pub rounded : ℕ

-- Wallet ids are UUIDs, of which the code takes the lower-case text.
pub record CreateTransfer : Type 0 where
  pub from_wallet_id : ℕ
  pub to_wallet_identifier : Text
  pub amount : RequestAmount
  pub currency : Text
  pub target_currency : Option Text

pub record SplitSharePayment : Type 0 where
  pub share_id : ℕ
  pub participant_user_id : ℕ
  pub from_wallet_id : ℕ
  pub receiver_reference : Text
  pub amount_minor : ℕ
  pub currency : Text

pub data RequestFault : Type 0 where
  key_required key_too_long invalid_amount transfer_not_found : RequestFault
  not_created : CreateFault → RequestFault

abbrev pub max_idempotency_key_length : ℕ
max_idempotency_key_length = 200

abbrev check_key : Text → Result RequestFault Text
check_key [] = err key_required
check_key (c ∷ key) =
    if leb (length (c ∷ key)) max_idempotency_key_length then ok (c ∷ key) else err key_too_long

-- A header that is not there is `none`.
unfoldable pub normalize_idempotency_key : TextConfig → Option Text → Result RequestFault Text
normalize_idempotency_key texts none = err key_required
normalize_idempotency_key texts (some value) = check_key (texts.trim value)

-- `Number.MAX_SAFE_INTEGER` bounds `Number.isSafeInteger`.
unfoldable pub request_minor_units : RequestAmount → Result RequestFault ℕ
request_minor_units amount =
    if amount.is_finite
      && (amount.is_positive && (leb amount.rounded 9007199254740991 && amount.is_exact))
    then ok amount.rounded
    else err invalid_amount

abbrev target_of_request : CreateTransfer → Text
target_of_request dto = elim dto.target_currency [ none ↦ dto.currency | some c ↦ c ]

unfoldable pub canonical_request :
    TextConfig → CreateTransfer → ℕ → Option ℕ → Result RequestFault CanonicalTransferRequest
canonical_request texts dto sender_user_id share_id = elim (request_minor_units dto.amount) [
  | err e ↦ err e
  | ok amount ↦ ok (record {
    sender_user_id = sender_user_id;
    sender_wallet_id = dto.from_wallet_id;
    receiver_reference = texts.trim dto.to_wallet_identifier;
    amount_minor = amount;
    currency = texts.to_upper (texts.trim dto.currency);
    destination_currency = texts.to_upper (texts.trim (target_of_request dto));
    split_bill_share_id = share_id;
  })
]

abbrev created : Action CreateFault Transfer → Action RequestFault Transfer
created m = handle m (λ e. throw (not_created e))

-- `create`
unfoldable pub create_transfer :
    TransfersConfig → TextConfig → CreateTransfer → Option Text → ℕ → Action RequestFault Transfer
create_transfer config texts dto header sender_user_id =
    lift (normalize_idempotency_key texts header) >>= λ key.
    lift (canonical_request texts dto sender_user_id none) >>= λ canonical.
    created (create_canonical config canonical key)

unfoldable pub create_split_share_payment :
    TransfersConfig → TextConfig → SplitSharePayment → Option Text → Action RequestFault Transfer
create_split_share_payment config texts input header =
    lift (normalize_idempotency_key texts header) >>= λ key. created (
      create_canonical config
        (record {
          sender_user_id = input.participant_user_id;
          sender_wallet_id = input.from_wallet_id;
          receiver_reference = texts.to_lower (texts.trim input.receiver_reference);
          amount_minor = input.amount_minor;
          currency = input.currency;
          destination_currency = input.currency;
          split_bill_share_id = some input.share_id;
        })
        key)

-- `findOne({ where: { id, senderUserId } })`
unfoldable pub get_status : TransfersConfig → ℕ → ℕ → Action RequestFault Transfer
get_status config id sender_user_id w0 =
    let w = config.arrive w0 in
    elim (lookup id w.db.transfers) [
      | none ↦ throw transfer_not_found w
      | some row ↦
          if row.sender_user_id == sender_user_id then pure row w else throw transfer_not_found w
    ]
