-- ===== src/Providers/Resolver.antt =====
-- core/src/providers/{text,stt,tts}.rs: the resolver, which tries the providers of a chain in order. The
-- three axes have each their own copy of it, with the same text; an axis gives the providers.
pub mod First
pub mod Kinds
use smolit_assistant.Base.{
  ℕ, ◌+◌, ◌≡◌, refl, String, Bool, true, false, Option, none, some, List, [], ◌∷◌, map, eqb,
  if◌then◌else◌, or_else,
}
use smolit_assistant.Base.Failures.{Result, ok, err}
use smolit_assistant.Providers.{ProviderError, empty_chain, all_failed, RuntimeStatus}

-- An axis: the kinds of its providers, what one attempt gives (with the provider behind it and the
-- number of the next call outside), and the class of an error.
pub record Axis (P T : Type 0) : Type 0 where
  pub kind_name : P → String
  pub is_cloud : P → Bool
  pub attempt : ℕ → P → Result T × P × ℕ
  pub classify_error : List String → String

pub record Resolver (P : Type 0) : Type 0 where
  pub providers : List P
  pub status : RuntimeStatus

pub data Resolution (T : Type 0) : Type 0 where
  answered : T → Resolution T
  refused : ProviderError → Resolution T

module _ {P T : Type 0} (axis : Axis P T) where
  abbrev pub answering_status : String → ℕ → P → RuntimeStatus
  answering_status primary index p = record {
    configured = primary;
    active = axis.kind_name p;
    availability = if eqb index 0 then "available" else "fallback_active";
    last_error = none;
    cloud = axis.is_cloud p;
  }

  abbrev pub failed_status : String → String → RuntimeStatus
  failed_status primary last = record {
    configured = primary;
    active = "";
    availability = "unavailable";
    last_error = some last;
    cloud = false;
  }

  abbrev pub kept :
      P → Resolution T × List P × RuntimeStatus × ℕ → Resolution T × List P × RuntimeStatus × ℕ
  kept p (r, ps, status, n) = (r, p ∷ ps, status, n)

  -- The loop over the providers, from the position `index` on; `last` is the class of the last error.
  unfoldable pub try_providers :
      String → ℕ → Option String → ℕ → List P → Resolution T × List P × RuntimeStatus × ℕ
  try_providers primary index last n [] = (
    refused (all_failed (or_else last "unknown")),
    [],
    failed_status primary (or_else last "unknown"),
    n,
  )
  try_providers primary index last n (p ∷ ps) =
      let (r, p', n') = axis.attempt n p in
      elim r [
        | ok t ↦ (answered t, p' ∷ ps, answering_status primary index p', n')
        | err e ↦ kept p' (try_providers primary (index + 1) (some (axis.classify_error e)) n' ps)
      ]

  abbrev pub empty_status : RuntimeStatus
  empty_status = record {
    configured = "none";
    active = "";
    availability = "unavailable";
    last_error = some "empty_chain";
    cloud = false;
  }

  abbrev pub resolved : Resolution T × List P × RuntimeStatus × ℕ → Resolution T × Resolver P × ℕ
  resolved (r, ps, status, n) = (r, record { providers = ps; status = status }, n)

  abbrev pub run_providers : ℕ → List P → Resolution T × Resolver P × ℕ
  run_providers n [] = (refused empty_chain, record { providers = []; status = empty_status }, n)
  run_providers n (p ∷ ps) = resolved (try_providers (axis.kind_name p) 0 none n (p ∷ ps))

  -- `run` of a resolver; the number of the next call outside goes in and out.
  unfoldable pub resolve : ℕ → Resolver P → Resolution T × Resolver P × ℕ
  unfolding try_providers
  resolve n r = run_providers n r.providers
