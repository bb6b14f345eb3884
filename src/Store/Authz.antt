-- ===== src/Store/Authz.antt =====
-- backend/store/authz.go and the compaction of backend/store/retention.go: the authorized set, its
-- revision log, and the answers to the agents. `RecomputeAuthz` holds a lock for its whole
-- transaction, so that revisions commit in the order of their numbers; the reads see one snapshot.
pub mod Log
pub mod Recompute
pub mod Paid
pub mod Delta
pub mod Compact
pub mod Serves
use fips_exit_gate.Base.{
  ℕ, ◌+◌, Bool, true, false, not, ◌&&◌, ◌||◌, Option, none, some, List, [], ◌∷◌, ◌++◌, map, ltb,
  leb, ◌==◌, if◌then◌else◌, length, keep,
}
use fips_exit_gate.Base.Equality.{nat_eq}
use fips_exit_gate.Base.Assoc.{lookup, insert, erase, keys}
use fips_exit_gate.Store.State.{
  AccountRow, EntryRow, Kind, volume, time, Entitlement, Op, add, del, Revision, Authz, Db,
}

-- The `EXISTS` of the queries.
unfoldable pub any {ℓ} : {A : Type ℓ} → (A → Bool) → List A → Bool
any p [] = false
any p (x ∷ xs) = p x || any p xs

unfoldable pub is_time : Kind → Bool
is_time time = true
is_time volume = false

-- An active entitlement: in its validity window, and a pass or not used up.
unfoldable pub is_active : ℕ → Entitlement → Bool
unfolding is_time
is_active now e =
    leb e.starts_at now
    && leb now e.expires_at
    && (is_time e.kind || ltb e.volume_used e.volume_bytes)

unfoldable pub entitled : ℕ → List Entitlement → ℕ → Bool
entitled now es acct = any (λ (e : Entitlement). e.account_id == acct && is_active now e) es

unfoldable pub account_active : List AccountRow → ℕ → Bool
account_active accounts acct = any (λ (a : AccountRow). a.id == acct && a.active) accounts

-- The `WHERE` of `desiredSQL`.
unfoldable pub selected : ℕ → Db → EntryRow → Bool
selected now db w =
    w.enabled
    && not w.pending
    && account_active db.accounts w.account_id
    && entitled now db.entitlements w.account_id

-- `scanAddrAccount`: the map of the selected rows.
unfoldable pub scan : List (ℕ × ℕ) → List EntryRow → List (ℕ × ℕ)
scan m [] = m
scan m (w ∷ ws) = scan (insert w.fips_addr w.account_id m) ws

unfoldable pub desired : ℕ → Db → List (ℕ × ℕ)
desired now db = scan [] (keep (selected now db) db.whitelist)

-- `INSERT INTO authz_revisions`.
unfoldable pub append_rev : ℕ → Op → ℕ → ℕ → Authz → Authz
append_rev now op addr acct s = record s {
  revisions =
      s.revisions
      ++ record { rev = s.last_rev + 1; op = op; addr = addr; account = acct; created_at = now }
        ∷ [];
  last_rev = s.last_rev + 1;
}

-- The two statements for one change of membership.
unfoldable pub put_member : ℕ → ℕ → ℕ → Authz → Authz
unfolding append_rev
put_member now addr acct s =
    append_rev now add addr acct (record s { current = insert addr acct s.current })

unfoldable pub drop_member : ℕ → ℕ → ℕ → Authz → Authz
unfolding append_rev
drop_member now addr acct s =
    append_rev now del addr acct (record s { current = erase addr s.current })

unfoldable pub same_account : Option ℕ → ℕ → Bool
same_account none acct = false
same_account (some cur) acct = cur == acct

-- The first loop: new members, and members that moved to another account.
unfoldable pub add_members : ℕ → List (ℕ × ℕ) → List (ℕ × ℕ) → Authz → Authz
add_members now current [] s = s
add_members now current ((addr, acct) ∷ desired) s =
    add_members now current desired
      (if same_account (lookup addr current) acct then s else put_member now addr acct s)

unfoldable pub is_member : ℕ → List (ℕ × ℕ) → Bool
is_member addr m = elim (lookup addr m) [ none ↦ false | some acct ↦ true ]

-- The second loop: members that are desired no more. It returns them too.
unfoldable pub del_members : ℕ → List (ℕ × ℕ) → List (ℕ × ℕ) → Authz → Authz × List ℕ
del_members now desired [] s = (s, [])
del_members now desired ((addr, acct) ∷ current) s =
    let stay = is_member addr desired in
    let (s', removed) =
      del_members now desired current (if stay then s else drop_member now addr acct s) in
    (s', if stay then removed else addr ∷ removed)

-- `COALESCE(max(rev), 0)` and `COALESCE(min(rev), 0)`.
unfoldable pub max_rev : List Revision → ℕ
max_rev [] = 0
max_rev (r ∷ rs) = let m = max_rev rs in if ltb m r.rev then r.rev else m

unfoldable pub min_rev : List Revision → ℕ
min_rev [] = 0
min_rev (r ∷ []) = r.rev
min_rev (r ∷ q ∷ rs) = let m = min_rev (q ∷ rs) in if ltb m r.rev then m else r.rev

-- `RecomputeAuthz`: the new state, the removed addresses, and the revision.
unfoldable pub recompute : ℕ → Db → Authz × List ℕ × ℕ
unfolding desired scan selected account_active entitled any is_active add_members del_members
    max_rev same_account put_member drop_member is_member
recompute now db =
    let wanted = desired now db in
    let s = db.authz in
    let (s', removed) = del_members now wanted s.current (add_members now s.current wanted s) in
    (s', removed, max_rev s'.revisions)

-- `FullSet`.
unfoldable pub full_set : Authz → List (ℕ × ℕ) × ℕ
full_set s = (s.current, max_rev s.revisions)

unfoldable pub since : ℕ → List Revision → List Revision
since cursor rs = keep (λ (r : Revision). ltb cursor r.rev) rs

-- The map `final`: the last operation on each address, with its account.
unfoldable pub final_ops : List Revision → List (ℕ × (Op × ℕ)) → List (ℕ × (Op × ℕ))
final_ops [] m = m
final_ops (r ∷ rs) m = final_ops rs (insert r.addr (r.op, r.account) m)

unfoldable pub added : List (ℕ × (Op × ℕ)) → List (ℕ × ℕ)
added [] = []
added ((a, (add, acct)) ∷ m) = (a, acct) ∷ added m
added ((a, (del, acct)) ∷ m) = added m

unfoldable pub deleted : List (ℕ × (Op × ℕ)) → List ℕ
deleted [] = []
deleted ((a, (add, acct)) ∷ m) = deleted m
deleted ((a, (del, acct)) ∷ m) = a ∷ deleted m

pub data DeltaResult : Type 0 where
  compacted : DeltaResult
  delta : List (ℕ × ℕ) → List ℕ → ℕ → DeltaResult

-- `DeltaSince`.
unfoldable pub delta_since : ℕ → Authz → DeltaResult
delta_since cursor s =
    let oldest = min_rev s.revisions in
    let final = final_ops (since cursor s.revisions) [] in
    if ltb 0 oldest && ltb (cursor + 1) oldest
    then compacted
    else delta (added final) (deleted final) (max_rev s.revisions)

-- `CompactAuthzRevisions`: rows older than the cutoff, but never the newest row.
unfoldable pub compact : ℕ → Authz → Authz
compact cutoff s =
    let newest = max_rev s.revisions in
    record s {
      revisions =
          keep (λ (r : Revision). not (ltb r.created_at cutoff && ltb r.rev newest)) s.revisions;
    }
