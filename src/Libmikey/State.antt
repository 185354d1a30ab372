-- ===== src/Libmikey/State.antt =====
-- minisip.patch: where `setStateByInt` of Mikey.cxx leads.
use kerberized_multimedia_in.Base.{ℕ, ◌≡◌, arith}
use kerberized_multimedia_in.Libmikey.{
  MikeyState, start, initiator, responder, authenticated, error, set_state_by_int,
}

-- Whatever state is asked for, the object is in the state of an error then: no case has a break.
pub set_state_by_int-error :
    (number : MikeyState → ℕ) (asked state : MikeyState)
    → set_state_by_int number (number asked) state ≡ error
unfolding set_state_by_int
set_state_by_int-error number start state = ground arith
set_state_by_int-error number initiator state = ground arith
set_state_by_int-error number responder state = ground arith
set_state_by_int-error number authenticated state = ground arith
set_state_by_int-error number error state = ground arith
