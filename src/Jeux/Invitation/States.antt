-- ===== src/Jeux/Invitation/States.antt =====
-- The life of an invitation: open, accepted, closed.
use c_starter_projects.Prelude.{ℕ, suc, ◌≤◌, ◌≡◌, refl, ◌∙◌, ◌≢◌, ◌⊎◌, inl, inr, some, arith}
use c_starter_projects.Prelude.Int.{ℤ, pos, minus_one}
use c_starter_projects.Jeux.Run.{ok}
use c_starter_projects.Jeux.Game.{Role, game_create}
use c_starter_projects.Jeux.Store.{write}
use c_starter_projects.Jeux.Invitation.{
  InvitationState, inv_open_state, inv_accepted_state, inv_closed_state, Invitation, Games, inv_ref,
  inv_unref, inv_accept, inv_close,
}

abbrev pub rank : InvitationState → ℕ
rank inv_open_state = 0
rank inv_accepted_state = 1
rank inv_closed_state = 2

module _ {Client : Type 0} where
  -- A call on an invitation that stays alive, or a change of the games by other calls.
  pub data InvStep (inv : Invitation Client) (games : Games) (inv' : Invitation Client)
      (games' : Games) : Type 0 where
    refers : inv_ref inv ≡ ok inv' → games' ≡ games → InvStep inv games inv' games'
    unrefers : inv_unref inv ≡ ok (some inv') → games' ≡ games → InvStep inv games inv' games'
    accepts :
        (fresh : ℕ) (ret : ℤ)
        → inv_accept fresh inv games ≡ ok (ret, inv', games')
        → InvStep inv games inv' games'
    closes :
        (role : Role) (ret : ℤ)
        → inv_close inv role games ≡ ok (ret, inv', games')
        → InvStep inv games inv' games'
    plays : inv' ≡ inv → InvStep inv games inv' games'

  pub data InvReach (inv : Invitation Client) (games : Games)
      : Invitation Client → Games → Type 0 where
    here : InvReach inv games inv games
    next :
        {inv' inv'' : Invitation Client} {games' games'' : Games}
        → InvReach inv games inv' games'
        → InvStep inv' games' inv'' games''
        → InvReach inv games inv'' games''

  -- What no call undoes: the state does not go back, an accepted or closed invitation keeps its
  -- game, and the parties and their roles stay.
  pub record Forward (inv inv' : Invitation Client) : Type 0 where
    pub onward : rank inv.inv_state ≤ rank inv'.inv_state
    pub source_kept : inv'.inv_source ≡ inv.inv_source
    pub target_kept : inv'.inv_target ≡ inv.inv_target
    pub source_role_kept : inv'.inv_source_game_role ≡ inv.inv_source_game_role
    pub target_role_kept : inv'.inv_target_game_role ≡ inv.inv_target_game_role
    pub game_kept : (inv.inv_state ≡ inv_open_state) ⊎ (inv'.inv_game ≡ inv.inv_game)

  InvStep-Forward :
      {inv inv' : Invitation Client} {games games' : Games}
      → InvStep inv games inv' games'
      → Forward inv inv'
  unfolding inv_ref inv_unref inv_accept inv_close
  InvStep-Forward (refers e _) = ground arith
  InvStep-Forward (unrefers e _) = ground arith
  InvStep-Forward (accepts fresh ret e) = ground arith
  InvStep-Forward (closes role ret e) = ground arith
  InvStep-Forward (plays e) = ground arith

  Forward-trans : {a b c : Invitation Client} → Forward a b → Forward b c → Forward a c
  Forward-trans {a} {b} {c} f g = record {
    onward = omega (arith, f.onward, g.onward);
    source_kept = g.source_kept ∙ f.source_kept;
    target_kept = g.target_kept ∙ f.target_kept;
    source_role_kept = g.source_role_kept ∙ f.source_role_kept;
    target_role_kept = g.target_role_kept ∙ f.target_role_kept;
    game_kept = open_or_kept a.inv_state b.inv_state f.onward f.game_kept g.game_kept;
  }
    where
      open_or_kept :
          (s t : InvitationState)
          → rank s ≤ rank t
          → (s ≡ inv_open_state) ⊎ (b.inv_game ≡ a.inv_game)
          → (t ≡ inv_open_state) ⊎ (c.inv_game ≡ b.inv_game)
          → (s ≡ inv_open_state) ⊎ (c.inv_game ≡ a.inv_game)
      open_or_kept s t h p q = ground arith

  -- Whatever calls follow, an invitation never goes back to an earlier state, keeps the game that it
  -- was given when it was accepted, and keeps its parties and their roles.
  pub InvReach-Forward :
      {inv : Invitation Client} {games : Games} {inv' : Invitation Client} {games' : Games}
      → InvReach inv games inv' games'
      → Forward inv inv'
  InvReach-Forward here = record {
    onward = omega arith;
    source_kept = refl;
    target_kept = refl;
    source_role_kept = refl;
    target_role_kept = refl;
    game_kept = inr refl;
  }
  InvReach-Forward (next r s) = Forward-trans (InvReach-Forward r) (InvStep-Forward s)

  -- With its lock free, an open invitation is accepted: the call returns 0, and a new game stands at
  -- the address that the invitation now points to, every other game being as it was. In any other
  -- state the call returns -1 and changes nothing.
  pub accept_cases :
      (fresh lock : ℕ) (inv : Invitation Client) (games : Games)
      → inv.inv_lock ≡ suc lock
      → ((inv.inv_state ≡ inv_open_state)
          × (inv' : Invitation Client) × (games' : Games) × (inv_accept fresh inv games
              ≡ ok (pos 0, inv', games'))
          × (inv'.inv_state ≡ inv_accepted_state)
          × (games' inv'.inv_game ≡ some game_create)
          × ((q : ℕ) → q ≢ fresh → games' q ≡ games q))
        ⊎ ((inv.inv_state ≢ inv_open_state)
            × (inv_accept fresh inv games ≡ ok (minus_one, inv, games)))
  unfolding inv_accept
  accept_cases fresh lock inv games e = elim (open_cases inv.inv_state) [
    | inl o ↦ inl (
      o,
      record inv { inv_state = inv_accepted_state; inv_game = fresh },
      write games fresh (some game_create),
      ground arith,
      refl,
      ground arith,
      λ q ne. ground arith,
    )
    | inr c ↦ inr (c, ground arith)
  ]
    where
      open_cases : (s : InvitationState) → (s ≡ inv_open_state) ⊎ (s ≢ inv_open_state)
      open_cases inv_open_state = inl refl
      open_cases inv_accepted_state = inr (λ e. cc)
      open_cases inv_closed_state = inr (λ e. cc)
