-- ===== src/Examples/Payments.antt =====
-- A signed event says that the invoice of the pending purchase is settled, and the provider agrees.
use fips_exit_gate.Base.{ℕ, Bool, true, Option, none}
use fips_exit_gate.Store.Purchases.Settled.{Keeps}
use fips_exit_gate.Payments.{Check, answered, invoice_settled, event, btcpay, Contact, serve}
use fips_exit_gate.Payments.Effects.{IsVouched, Backed, serve-IsVouched}
use fips_exit_gate.Examples.Backend.{shop}
use fips_exit_gate.Examples.Billing.{shop-IsSound}

abbrev notice : Contact
notice = btcpay (event invoice_settled 703)

abbrev agrees : ℕ → Check
agrees invoice = answered true

abbrev no_poll : ℕ → Option Bool
no_poll invoice = none

abbrev next_id : ℕ → ℕ
next_id invoice = 63

serve-IsVouched_example :
    Backed (IsVouched agrees no_poll notice) shop (serve 20 9 next_id agrees no_poll notice shop)
    × Keeps shop (serve 20 9 next_id agrees no_poll notice shop)
serve-IsVouched_example = serve-IsVouched 20 9 next_id agrees no_poll notice shop shop-IsSound
