-- ===== src/Analyzer/Connection.antt =====
-- The connections of HttpClient in the text analyzer (plugins/llm_text_analyzer_plugin.cpp): post from
-- the DNS resolution on, postPlain, postSsl and the guards. The sockets and OpenSSL are a `Network`.
use cpp20_workflow_engine.Shared.{
  ℕ, zero, suc, ◌⊎◌, inl, inr, Bool, Option, none, some, List, [], ◌∷◌, ◌++◌, if◌then◌else◌, Bytes,
  bytes,
}
use cpp20_workflow_engine.Shared.Int.{ℤ, to_string}
use cpp20_workflow_engine.Analyzer.Http.{Target}

-- The calls. A `Bool` tells whether a call succeeded; `connect` gives the text of its error; a read gives
-- nothing at the end and on an error. `set_timeout` is the two calls of setsockopt, and `ssl_set_up`
-- SSL_set_fd and SSL_set_tlsext_host_name.
pub record Network (W : Type 0) : Type 0 where
  pub getaddrinfo : W → Bytes → Bytes → Bool × W
  pub freeaddrinfo : W → W
  pub socket : W → Option ℕ × W
  pub set_timeout : W → ℕ → ℤ → W
  pub connect : W → ℕ → Option Bytes × W
  pub close : W → ℕ → W
  pub write : W → ℕ → Bytes → Bool × W
  pub read : W → ℕ → Bytes × W
  pub ssl_ctx_new : W → Option ℕ × W
  pub ssl_ctx_free : W → ℕ → W
  pub ssl_new : W → ℕ → Option ℕ × W
  pub ssl_set_up : W → ℕ → ℕ → Bytes → W
  pub ssl_connect : W → ℕ → Bool × W
  pub ssl_write : W → ℕ → Bytes → Bool × W
  pub ssl_read : W → ℕ → Bytes × W
  pub ssl_shutdown : W → ℕ → W
  pub ssl_free : W → ℕ → W

-- The message of a failure, or the reads of a response, and the world; `none` means that the fuel ran out.
abbrev pub Reply : Type 0 → Type 0
Reply W = Option ((Bytes ⊎ List Bytes) × W)

-- What the destructor of a guard does at the end of a scope.
abbrev pub finally : {W : Type 0} → (W → W) → Reply W → Reply W
finally release r = elim r [ none ↦ none | some (answer, w) ↦ some (answer, release w) ]

module _ {W : Type 0} (net : Network W) where
  -- The loop of `readResponse`.
  unfoldable pub read_rounds : (W → Bytes × W) → ℕ → W → Option (List Bytes × W)
  read_rounds read_fn zero w = none
  read_rounds read_fn (suc fuel) w =
      let rest = read_rounds read_fn fuel (read_fn w).1 in
      elim (read_fn w).0 [
        | [] ↦ some ([], (read_fn w).1)
        | c ∷ buf ↦ elim rest [ none ↦ none | some (more, w') ↦ some ((c ∷ buf) ∷ more, w') ]
      ]

  unfoldable pub reads_of : (W → Bytes × W) → ℕ → W → Reply W
  unfolding read_rounds
  reads_of read_fn fuel w = elim (read_rounds read_fn fuel w) [
    | none ↦ none
    | some (reads, w') ↦ some (inr reads, w')
  ]

  unfoldable pub post_plain : ℕ → ℕ → Bytes → W → Reply W
  unfolding reads_of
  post_plain fuel fd request w =
      let (written, w') = net.write w fd request in
      if written
      then reads_of (λ v. net.read v fd) fuel w'
      else some (inl (bytes "write() failed"), w')

  -- `postSsl` with an SSL object.
  unfoldable pub talk_ssl : ℕ → ℕ → ℕ → Bytes → Bytes → W → Reply W
  unfolding reads_of
  talk_ssl fuel fd ssl host request w =
      let (connected, w1) = net.ssl_connect (net.ssl_set_up w ssl fd host) ssl in
      if connected
      then (let (written, w2) = net.ssl_write w1 ssl request in
          if written
          then reads_of (λ v. net.ssl_read v ssl) fuel w2
          else some (inl (bytes "SSL_write failed"), w2))
      else some (inl (bytes "SSL_connect failed"), w1)

  -- `postSsl` with an SSL context; the guard shuts the object down and frees it.
  unfoldable pub with_ssl : ℕ → ℕ → ℕ → Bytes → Bytes → W → Reply W
  unfolding talk_ssl
  with_ssl fuel fd ctx host request w =
      let (created, w') = net.ssl_new w ctx in
      elim created [
        | none ↦ some (inl (bytes "SSL_new failed"), w')
        | some ssl ↦
            finally (λ v. net.ssl_free (net.ssl_shutdown v ssl) ssl)
              (talk_ssl fuel fd ssl host request w')
      ]

  unfoldable pub post_ssl : ℕ → ℕ → Bytes → Bytes → W → Reply W
  unfolding with_ssl
  post_ssl fuel fd host request w =
      let (created, w') = net.ssl_ctx_new w in
      elim created [
        | none ↦ some (inl (bytes "SSL_CTX_new failed"), w')
        | some ctx ↦ finally (λ v. net.ssl_ctx_free v ctx) (with_ssl fuel fd ctx host request w')
      ]

  -- `post` with a socket.
  unfoldable pub with_socket : ℕ → ℕ → Target → ℤ → Bytes → W → Reply W
  unfolding post_plain post_ssl
  with_socket fuel fd target timeout_s request w =
      let (failed, w') = net.connect (net.set_timeout w fd timeout_s) fd in
      elim failed [
        | some what ↦ some (inl (bytes "connect() failed: " ++ what), w')
        | none ↦
            if target.use_ssl
            then post_ssl fuel fd target.host request w'
            else post_plain fuel fd request w'
      ]

  -- `post` with an address.
  unfoldable pub with_address : ℕ → Target → ℤ → Bytes → W → Reply W
  unfolding with_socket
  with_address fuel target timeout_s request w =
      let (opened, w') = net.socket w in
      elim opened [
        | none ↦ some (inl (bytes "socket() failed"), w')
        | some fd ↦ finally (λ v. net.close v fd) (with_socket fuel fd target timeout_s request w')
      ]

  -- `post` from the resolution on: the `exchange` of a System.
  unfoldable pub exchange : ℕ → W → Target → ℤ → Bytes → Reply W
  unfolding with_address
  exchange fuel w target timeout_s request =
      let (resolved, w') = net.getaddrinfo w target.host (to_string target.port) in
      if resolved
      then finally net.freeaddrinfo (with_address fuel target timeout_s request w')
      else some (inl (bytes "DNS resolution failed for: " ++ target.host), w')
