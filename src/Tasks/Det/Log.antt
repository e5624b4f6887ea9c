-- ===== src/Tasks/Det/Log.antt =====
-- The history of the service.
use tracecore.Prelude.{
  ◌+◌, ◌≡◌, refl, String, Bool, true, false, Option, none, some, [], ◌∷◌, ◌++◌, ◌==◌, eq_iff, ltb,
  inl, inr, Bool-cases,
}
use tracecore.Prelude.Dict.{Dict}
use tracecore.Prelude.Text.{replace}
use tracecore.Value.{Value, str, get_or_null}
use tracecore.Value.Equality.{value_eq}
use tracecore.Exc.{Result, ok, raised}
use tracecore.Tasks.Det.{
  Det, log_entry, names_handshake, commit_phrase, handshake_commit, token, valid_payload, call,
}

-- What a call that came back left in the history, at an endpoint.
abbrev pub IsLogged : String → Det → Result (Dict Value) × Det → Type 0
IsLogged endpoint s (ok result, t) = t.history ≡ s.history ++ log_entry endpoint result s.now ∷ []
IsLogged endpoint s (raised e, t) = t ≡ s

commit_phrase-IsLogged :
    (id : Option String) (payload : Dict Value) (s : Det)
    → IsLogged "/handshake_commit" s (commit_phrase id payload s)
commit_phrase-IsLogged none payload s = refl
commit_phrase-IsLogged (some id) payload s =
    elim (Bool-cases (
      value_eq (get_or_null "response" payload)
        (str (replace "<handshake_id>" id s.handshake_phrase)))) [
          | inl h ↦ rw h refl
          | inr h ↦ rw h refl
        ]

handshake_commit-IsLogged :
    (payload : Option (Dict Value)) (s : Det)
    → IsLogged "/handshake_commit" s (handshake_commit payload s)
handshake_commit-IsLogged none s = refl
handshake_commit-IsLogged (some []) s = refl
handshake_commit-IsLogged (some (e ∷ payload)) s =
    elim (Bool-cases (names_handshake (e ∷ payload) s)) [
      | inl h ↦ rw h (commit_phrase-IsLogged s.handshake_id (e ∷ payload) s)
      | inr h ↦ rw h refl
    ]

token-IsLogged :
    (confirmed valid : Bool) (s : Det)
    → IsLogged "/token" s (token confirmed valid (record s { token_calls = s.token_calls + 1 }))
token-IsLogged false valid s = refl
token-IsLogged true false s = refl
token-IsLogged true true s = elim (Bool-cases (ltb s.now s.blocked_until)) [
  | inl h ↦ rw h refl
  | inr h ↦ elim (Bool-cases s.transient_once) [ inl t ↦ rw (h, t) refl | inr t ↦ rw (h, t) refl ]
]

-- A call that returns leaves exactly one new entry at the end of the history: its endpoint, the
-- result that it returned and the time of the call. A call that raises leaves the service as it was.
pub call-IsLogged :
    (endpoint : String) (payload : Option (Dict Value)) (s : Det)
    → IsLogged endpoint s (call endpoint payload s)
unfolding call
call-IsLogged endpoint payload s = elim (Bool-cases (endpoint == "/handshake")) [
  | inl h ↦ rw ((eq_iff endpoint "/handshake").0 h) refl
  | inr h ↦ rw h (elim (Bool-cases (endpoint == "/handshake_commit")) [
    | inl c ↦ rw ((eq_iff endpoint "/handshake_commit").0 c) (handshake_commit-IsLogged payload s)
    | inr c ↦ rw c (elim (Bool-cases (endpoint == "/token")) [
      | inl t ↦
          rw ((eq_iff endpoint "/token").0 t)
            (token-IsLogged s.handshake_confirmed (valid_payload payload s) s)
      | inr t ↦ rw t refl
    ])
  ])
]
