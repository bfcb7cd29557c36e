-- ===== src/Server/Listening/Sockets.antt =====
-- internal/server/server.go: which sockets `Start` leaves open.
use static_web.Prelude.{
  Bool, true, false, not, ◌&&◌, Option, none, some, List, [], ◌∷◌, ◌++◌, ◌≡◌, refl, inl, inr,
  Bool-cases,
}
use static_web.Server.Net.{Net}
use static_web.Server.Listening.{State, Socket, socket, StartError, start, start_https}

-- The sockets that a server holds.
pub held : State → List Socket
held s =
    (elim s.https_listener [ none ↦ [] | some x ↦ x ∷ [] ])
    ++ (elim s.http_listener [ none ↦ [] | some x ↦ x ∷ [] ])

-- Every listener that is needed.
abbrev pub IsListening : State → Type 0
IsListening s = elim s.http_listener [
  | none ↦ ⊥
  | some x ↦ elim s.https_listener [ none ↦ s.has_https ≡ false | some y ↦ s.has_https ≡ true ]
]

-- Without an error the server listens and holds what was opened; with one nothing has happened.
abbrev pub AllOrNothing : State → List Socket → Option StartError × State × List Socket → Type 0
AllOrNothing s sockets (e, s', sockets') = elim e [
  | none ↦ IsListening s' × (sockets' ≡ held s' ++ sockets)
  | some x ↦ (s' ≡ s) × (sockets' ≡ sockets)
]

module _ (net : Net) (key_pair : Bool) (bind : Socket → List Socket → Bool) where
  start_https-AllOrNothing :
      (s : State) (sockets : List Socket)
      → AllOrNothing s sockets (start_https net key_pair bind s sockets)
  unfolding start_https held
  start_https-AllOrNothing s sockets = elim (Bool-cases s.has_https) [
    | inr e ↦ rw (e, start_https) (refl, refl)
    | inl e ↦
        elim (Bool-cases (
          bind (socket net key_pair bind s.tls_addr)
            (socket net key_pair bind s.http_addr ∷ sockets))) [
              | inl b ↦ rw (e, b, start_https) (refl, refl)
              | inr b ↦ rw (e, b, start_https) (refl, refl)
            ]
  ]

  -- Start either succeeds, and then the server has every listener that it needs and just these
  -- sockets are open beside the earlier ones, or it fails, and then the server and the open
  -- sockets are as before.
  pub start-AllOrNothing :
      (s : State) (sockets : List Socket)
      → AllOrNothing s sockets (start net key_pair bind s sockets)
  unfolding start
  start-AllOrNothing s sockets = elim (Bool-cases (s.has_https && not key_pair)) [
    | inl e ↦ rw (e, start) (refl, refl)
    | inr e ↦ elim (Bool-cases (bind (socket net key_pair bind s.http_addr) sockets)) [
      | inl b ↦ rw (e, b, start) (start_https-AllOrNothing s sockets)
      | inr b ↦ rw (e, b, start) (refl, refl)
    ]
  ]
