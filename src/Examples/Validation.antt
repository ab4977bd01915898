-- ===== src/Examples/Validation.antt =====
-- Validating transfers, with users that are looked up in a table.
use p2p_ledger_starter.Ledger.Wallets.Accounts.Shown.{Agree}
use p2p_ledger_starter.Ledger.Wallets.Accounts.Receivers.{validate_transfer-IsReceiver, IsReceiver}
use p2p_ledger_starter.Ledger.Wallets.Commands.{Moments}
use p2p_ledger_starter.Ledger.Wallets.Accounts.Transfers.{
  uuid, check_destination, Reference, find_validated_receiver, validate_transfer, IsSender,
  ValidateCommand, text, find_or_open_receiver,
}
use p2p_ledger_starter.Ledger.Wallets.{to_positive_minor_units}
use p2p_ledger_starter.Ledger.Transaction.{integer, amount_to_minor_units}
use p2p_ledger_starter.Ledger.Tables.{Wallet}
use p2p_ledger_starter.Examples.Data.{two_wallets}
use p2p_ledger_starter.Common.{
  arith, ◌≢◌, ok, ◌==◌, if◌then◌else◌, ℕ, ◌≡◌, refl, Option, none, some,
}
use p2p_ledger_starter.Common.Int.{pos, ℤ}

abbrev find_user : Reference → Option ℕ
find_user (uuid n) = none
find_user (text n) = if n == 55 then some 20 else none

abbrev validate_command : ValidateCommand
validate_command = record {
  sender_wallet_id = 1;
  sender_user_id = 10;
  receiver_reference = text 55;
  amount = integer (pos 3000);
  currency = 840;
  target_currency = some 978;
  destination_amount = none;
}

abbrev meanwhile : Moments
meanwhile = record { seen = two_wallets; mid = two_wallets.events; db = two_wallets }

validated :
    validate_transfer find_user two_wallets meanwhile two_wallets 3 912 validate_command
    ≡ ok (2, two_wallets)
unfolding validate_transfer check_destination find_validated_receiver find_or_open_receiver
    to_positive_minor_units amount_to_minor_units
validated = refl

two_wallets-Agree : Agree two_wallets two_wallets
two_wallets-Agree owner_id currency w v found again = ground arith

validate_transfer-IsReceiver_example :
    (sender : Wallet) × (a : ℤ) × (receiver : Wallet) × IsSender two_wallets validate_command sender
      a
    × IsReceiver find_user validate_command receiver two_wallets
    × (receiver.id ≡ 2)
    × (◌≢◌ {A = ℕ} 2 1)
validate_transfer-IsReceiver_example =
    validate_transfer-IsReceiver find_user two_wallets meanwhile two_wallets 3 912 validate_command
      two_wallets-Agree two_wallets-Agree validated
