-- ===== src/Examples/Accounts.antt =====
-- Witnesses for the operations on accounts and invitations, on the tables of Backend.
use fips_exit_gate.Base.{ℕ, ◌+◌, ◌≡◌, refl, true, Option, none, some, ◌∷◌, arith}
use fips_exit_gate.Store.State.{guest, Db}
use fips_exit_gate.Store.Authz.{any, entitled, is_active}
use fips_exit_gate.Store.Whitelist.{is_active_row}
use fips_exit_gate.Store.Whitelist.Counts.{id_rows, active_rows}
use fips_exit_gate.Store.Accounts.{accept_invite}
use fips_exit_gate.Store.Accounts.OneActive.{IsIndexed}
use fips_exit_gate.Store.Accounts.Changes.{
  accepted, returned, change, Changes, begin, next, Changes-IsIndexed,
}
use fips_exit_gate.Store.Accounts.Accept.{Moved, accept_invite-Moved}
use fips_exit_gate.Examples.Backend.{shop}

abbrev derive : ℕ → Option ℕ
derive npub = some (npub + 10)

-- Account 1 has invited the owner of account 2.
abbrev inviting : Db
inviting = record shop {
  whitelist =
      record {
        id = 54;
        account_id = 1;
        npub = 22;
        fips_addr = 32;
        role = guest;
        enabled = true;
        pending = true;
      }
      ∷ shop.whitelist;
}

inviting-IsIndexed : IsIndexed inviting.whitelist
unfolding id_rows active_rows is_active_row
inviting-IsIndexed = record { keyed = λ id. ground arith; one = λ a. ground arith }

abbrev joined : Db
joined = (accept_invite 20 22 21 inviting).0

accepting : accept_invite 20 22 21 inviting ≡ (joined, none)
unfolding accept_invite entitled any is_active
accepting = refl

accept_invite-Moved_example : Moved 20 22 21 inviting joined
accept_invite-Moved_example =
    accept_invite-Moved 20 22 21 inviting inviting-IsIndexed {db' = joined} accepting

-- The guest joins, and returns to its own account.
abbrev back : Db
back = change derive 21 (change derive 20 inviting (accepted 22 21)) (returned 22)

and_back : Changes derive inviting back
and_back = next 21 (returned 22) (next 20 (accepted 22 21) begin tt) tt

Changes-IsIndexed_example : IsIndexed back.whitelist
Changes-IsIndexed_example =
    Changes-IsIndexed derive {db = inviting} {db' = back} inviting-IsIndexed and_back
