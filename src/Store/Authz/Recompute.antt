-- ===== src/Store/Authz/Recompute.antt =====
-- `RecomputeAuthz`: the set becomes the desired one, and the log goes on describing it.
use fips_exit_gate.Base.{
  ℕ, ◌≤◌, ◌≡◌, ◌∙◌, refl, sym, ap, Bool, true, false, not, ◌&&◌, Option, none, some, List, [], ◌∷◌,
  arith, ◌==◌, if◌then◌else◌, keep, if_cases,
}
use fips_exit_gate.Base.Equality.{nat_eq}
use fips_exit_gate.Base.Sets.{contains}
use fips_exit_gate.Base.Assoc.{lookup, insert, lookup-insert, lookup-erase, IsMap, insert-IsMap}
use fips_exit_gate.Store.State.{EntryRow, Authz, Db}
use fips_exit_gate.Store.Authz.{
  same_account, put_member, drop_member, is_member, add_members, del_members, desired, selected,
  scan, recompute,
}
use fips_exit_gate.Store.Authz.Log.{
  Tracks, IsLog, IsLog-put_member, IsLog-drop_member, Tracks-put_member, Tracks-drop_member,
}

-- What both loops keep: the log describes the set to every cursor that the sequence had reached.
pub record Follows (live : ℕ → Bool) (cursor : ℕ) (s : Authz) : Type 0 where
  pub log : IsLog s
  pub past : cursor ≤ s.last_rev
  pub tracks : Tracks live cursor s

module _ (live : ℕ → Bool) (cursor : ℕ) where
  Follows-put_member :
      (now addr acct : ℕ) (s : Authz)
      → Follows live cursor s
      → Follows live cursor (put_member now addr acct s)
  Follows-put_member now addr acct s f = record {
    log = IsLog-put_member now addr acct s f.log;
    past = unfold put_member in omega (arith, f.past);
    tracks = Tracks-put_member now addr acct s live cursor f.past f.tracks;
  }

  Follows-drop_member :
      (now addr acct : ℕ) (s : Authz)
      → Follows live cursor s
      → Follows live cursor (drop_member now addr acct s)
  Follows-drop_member now addr acct s f = record {
    log = IsLog-drop_member now addr acct s f.log;
    past = unfold drop_member in omega (arith, f.past);
    tracks = Tracks-drop_member now addr acct s live cursor f.past f.tracks;
  }

  Follows-add_members :
      (now : ℕ) (current wanted : List (ℕ × ℕ)) (s : Authz)
      → Follows live cursor s
      → Follows live cursor (add_members now current wanted s)
  unfolding add_members
  Follows-add_members now current [] s f = f
  Follows-add_members now current ((addr, acct) ∷ wanted) s f =
      Follows-add_members now current wanted _ (
        if_cases (Follows live cursor) (same_account (lookup addr current) acct) (λ _. f)
          (λ _. Follows-put_member now addr acct s f))

  Follows-del_members :
      (now : ℕ) (wanted current : List (ℕ × ℕ)) (s : Authz)
      → Follows live cursor s
      → Follows live cursor (del_members now wanted current s).0
  unfolding del_members
  Follows-del_members now wanted [] s f = f
  Follows-del_members now wanted ((addr, acct) ∷ current) s f =
      Follows-del_members now wanted current _ (
        if_cases (Follows live cursor) (is_member addr wanted) (λ _. f)
          (λ _. Follows-drop_member now addr acct s f))

  -- An agent that could catch up with the log before a recompute can catch up with it after.
  pub Follows-recompute :
      (now : ℕ) (db : Db) → Follows live cursor db.authz → Follows live cursor (recompute now db).0
  unfolding recompute
  Follows-recompute now db f =
      Follows-del_members now (desired now db) db.authz.current _
        (Follows-add_members now db.authz.current (desired now db) db.authz f)

is_member-cons :
    (k v a : ℕ) (m : List (ℕ × ℕ))
    → is_member a ((k, v) ∷ m) ≡ (if k == a then true else is_member a m)
unfolding is_member lookup
is_member-cons k v a m = ground arith

lookup-cons :
    (k v a : ℕ) (m : List (ℕ × ℕ)) → lookup a ((k, v) ∷ m) ≡ (if k == a then some v else lookup a m)
unfolding lookup
lookup-cons k v a m = refl

is_member-none : (a : ℕ) (m : List (ℕ × ℕ)) → lookup a m ≡ none → is_member a m ≡ false
unfolding is_member
is_member-none a m e = ground arith

-- One turn of each loop, read at one address.
add_turn :
    (now addr acct a : ℕ) (o : Option ℕ) (s : Authz)
    → lookup addr s.current ≡ o
    → lookup a (if same_account o acct then s else put_member now addr acct s).current
      ≡ (if addr == a then some acct else lookup a s.current)
unfolding same_account put_member
add_turn now addr acct a none s e = lookup-insert addr a acct s.current
add_turn now addr acct a (some cur) s e = ground (arith, lookup-insert addr a acct s.current)

del_turn :
    (now addr acct a : ℕ) (stay : Bool) (s : Authz)
    → lookup a (if stay then s else drop_member now addr acct s).current
      ≡ (if addr == a && not stay then none else lookup a s.current)
unfolding drop_member
del_turn now addr acct a true s = ground arith
del_turn now addr acct a false s = ground (arith, lookup-erase addr a s.current)

lookup-add_members :
    (now : ℕ) (current wanted : List (ℕ × ℕ)) (s : Authz) (a : ℕ)
    → IsMap wanted
    → ((j : ℕ) → is_member j wanted ≡ true → lookup j s.current ≡ lookup j current)
    → lookup a (add_members now current wanted s).current
      ≡ (if is_member a wanted then lookup a wanted else lookup a s.current)
unfolding add_members
lookup-add_members now current [] s a u same = unfold is_member lookup in refl
lookup-add_members now current ((addr, acct) ∷ wanted) s a u same =
    let o = lookup addr current in
    let s' : Authz = if same_account o acct then s else put_member now addr acct s in
    let here = same addr (rw (is_member-cons addr acct addr wanted) (ground arith)) in
    let rest = lookup-add_members now current wanted s' a u.1 (λ j m. ground (
      arith,
      add_turn now addr acct j o s here,
      same j,
      is_member-cons addr acct j wanted,
      is_member-none addr wanted u.0,
    )) in
    ground (
      arith,
      rest,
      add_turn now addr acct a o s here,
      is_member-cons addr acct a wanted,
      lookup-cons addr acct a wanted,
      is_member-none addr wanted u.0,
    )

lookup-del_members :
    (now : ℕ) (wanted current : List (ℕ × ℕ)) (s : Authz) (a : ℕ)
    → lookup a (del_members now wanted current s).0.current
      ≡ (if is_member a current && not (is_member a wanted) then none else lookup a s.current)
unfolding del_members
lookup-del_members now wanted [] s a = unfold is_member lookup in refl
lookup-del_members now wanted ((addr, acct) ∷ current) s a =
    let s' : Authz = if is_member addr wanted then s else drop_member now addr acct s in
    ground (
      arith,
      lookup-del_members now wanted current s' a,
      del_turn now addr acct a (is_member addr wanted) s,
      is_member-cons addr acct a current,
    )

-- The second loop's other result: the members that it dropped.
contains-del_members :
    (now : ℕ) (wanted current : List (ℕ × ℕ)) (s : Authz) (a : ℕ)
    → contains (del_members now wanted current s).1 a
      ≡ (is_member a current && not (is_member a wanted))
unfolding del_members contains
contains-del_members now wanted [] s a = unfold is_member lookup in refl
contains-del_members now wanted ((addr, acct) ∷ current) s a =
    let s' : Authz = if is_member addr wanted then s else drop_member now addr acct s in
    ground (arith, contains-del_members now wanted current s' a, is_member-cons addr acct a current)

scan-IsMap : (m : List (ℕ × ℕ)) (ws : List EntryRow) → IsMap m → IsMap (scan m ws)
unfolding scan
scan-IsMap m [] u = u
scan-IsMap m (w ∷ ws) u =
    scan-IsMap (insert w.fips_addr w.account_id m) ws (insert-IsMap w.fips_addr w.account_id m u)

desired-IsMap : (now : ℕ) (db : Db) → IsMap (desired now db)
unfolding desired
desired-IsMap now db = scan-IsMap [] (keep (selected now db) db.whitelist) tt

not_member : (a : ℕ) (m : List (ℕ × ℕ)) → is_member a m ≡ false → lookup a m ≡ none
unfolding is_member
not_member a m e = ground arith

pub is_member_eq :
    (a : ℕ) (m n : List (ℕ × ℕ)) → lookup a m ≡ lookup a n → is_member a m ≡ is_member a n
unfolding is_member
is_member_eq a m n e = ground arith

-- After a recompute every address has the account that the desired set gives it, or is no member,
-- and the addresses that the pass returns as removed are those that were members and are no more.
pub recompute-desired :
    (now : ℕ) (db : Db) (a : ℕ)
    → (lookup a (recompute now db).0.current ≡ lookup a (desired now db))
      × (contains (recompute now db).1 a
          ≡ (is_member a db.authz.current && not (is_member a (recompute now db).0.current)))
unfolding recompute
recompute-desired now db a =
    let wanted = desired now db in
    let cur = db.authz.current in
    let s = add_members now cur wanted db.authz in
    let set : lookup a (del_members now wanted cur s).0.current ≡ lookup a wanted = ground (
      arith,
      lookup-del_members now wanted cur s a,
      lookup-add_members now cur wanted db.authz a (desired-IsMap now db) (λ j m. refl),
      not_member a wanted,
      not_member a cur,
    ) in
    (
      set,
      contains-del_members now wanted cur s a
          ∙ ap (λ b. is_member a cur && not b)
              (sym (is_member_eq a (del_members now wanted cur s).0.current wanted set)),
    )
