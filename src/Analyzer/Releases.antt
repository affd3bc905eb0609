-- ===== src/Analyzer/Releases.antt =====
-- What the HTTP client of the text analyzer holds and releases (plugins/llm_text_analyzer_plugin.cpp).
use cpp20_workflow_engine.Shared.{
  ℕ, zero, suc, List-cases, arith, ◌≡◌, ◌⊎◌, inl, inr, refl, subst, ◌∙◌, Bool-cases, Option, none,
  some, Option-cases, List, ◌∷◌, Bytes, bytes,
}
use cpp20_workflow_engine.Shared.Int.{ℤ, to_string}
use cpp20_workflow_engine.Analyzer.Http.{Target}
use cpp20_workflow_engine.Analyzer.Connection.{
  Network, Reply, finally, read_rounds, reads_of, post_plain, talk_ssl, with_ssl, post_ssl,
  with_socket, with_address, exchange,
}
use cpp20_workflow_engine.Analyzer.Resources.{
  Resource, address, descriptor, ssl_context, ssl_object, acquired, Documented,
}

module _ {W : Type 0} (net : Network W) (fuel : ℕ) (held : W → List Resource)
    (doc : Documented net fuel held) where
  -- A reply comes, and leaves these resources held.
  abbrev Leaves : List Resource → Reply W → Type 0
  Leaves rs r = (answer : Bytes ⊎ List Bytes) × (w : W) × (r ≡ some (answer, w)) × (held w ≡ rs)

  finally-Leaves :
      (x : Resource) (rs : List Resource) (release : W → W) (r : Reply W)
      → ((w : W) → held w ≡ x ∷ rs → held (release w) ≡ rs)
      → Leaves (x ∷ rs) r
      → Leaves rs (finally release r)
  finally-Leaves x rs release r law (answer, w, e, h) = (answer, release w, rw e refl, law w h)

  read_rounds-held :
      (read_fn : W → Bytes × W) (n : ℕ) (w : W) (reads : List Bytes) (w' : W)
      → ((v : W) → held (read_fn v).1 ≡ held v)
      → read_rounds net read_fn n w ≡ some (reads, w')
      → held w' ≡ held w
  unfolding read_rounds
  read_rounds-held read_fn zero w reads w' law e = cc
  read_rounds-held read_fn (suc n) w reads w' law e = elim (List-cases (read_fn w).0) [
    | inl nothing ↦
        let last : (read_fn w).1 ≡ w' = ground (arith, e, nothing) in rw (← last) (law w)
    | inr (c, buf, some_read) ↦ elim (Option-cases (read_rounds net read_fn n (read_fn w).1)) [
      | inl out ↦ absurd (ground (arith, e, some_read, out))
      | inr ((more, w''), rest) ↦
          let last : w'' ≡ w' = ground (arith, e, some_read, rest) in
          rw (← last) (read_rounds-held read_fn n (read_fn w).1 more w'' law rest ∙ law w)
    ]
  ]

  reads_of-Leaves :
      (read_fn : W → Bytes × W) (w : W) (rs : List Resource)
      → ((v : W) → held (read_fn v).1 ≡ held v)
      → ((reads : List Bytes) × (w' : W) × (read_rounds net read_fn fuel w ≡ some (reads, w')))
      → held w ≡ rs
      → Leaves rs (reads_of net read_fn fuel w)
  unfolding reads_of
  reads_of-Leaves read_fn w rs law (reads, w', e) h =
      (inr reads, w', rw (reads_of, e) refl, read_rounds-held read_fn fuel w reads w' law e ∙ h)

  post_plain-Leaves :
      (fd : ℕ) (request : Bytes) (w : W) → Leaves (held w) (post_plain net fuel fd request w)
  unfolding post_plain
  post_plain-Leaves fd request w = elim (Bool-cases (net.write w fd request).0) [
    | inl ok ↦
        rw (post_plain, ok)
          (reads_of-Leaves (λ v. net.read v fd) (net.write w fd request).1 (held w)
            (λ v. doc.on_read v fd) (doc.read_ends (net.write w fd request).1 fd)
            (doc.on_write w fd request))
    | inr failed ↦
        rw (post_plain, failed) (_, (net.write w fd request).1, refl, doc.on_write w fd request)
  ]

  talk_ssl-Leaves :
      (fd ssl : ℕ) (host request : Bytes) (w : W)
      → Leaves (held w) (talk_ssl net fuel fd ssl host request w)
  unfolding talk_ssl
  talk_ssl-Leaves fd ssl host request w =
      let w0 = net.ssl_set_up w ssl fd host in
      let w1 = (net.ssl_connect w0 ssl).1 in
      let w2 = (net.ssl_write w1 ssl request).1 in
      let kept1 : held w1 ≡ held w = doc.on_ssl_connect w0 ssl ∙ doc.on_set_up w ssl fd host in
      let kept2 : held w2 ≡ held w = doc.on_ssl_write w1 ssl request ∙ kept1 in
      elim (Bool-cases (net.ssl_connect w0 ssl).0) [
        | inr failed ↦ rw (talk_ssl, failed) (_, w1, refl, kept1)
        | inl connected ↦ elim (Bool-cases (net.ssl_write w1 ssl request).0) [
          | inr failed ↦ rw (talk_ssl, connected, failed) (_, w2, refl, kept2)
          | inl written ↦
              rw (talk_ssl, connected, written)
                (reads_of-Leaves (λ v. net.ssl_read v ssl) w2 (held w) (λ v. doc.on_ssl_read v ssl)
                  (doc.ssl_read_ends w2 ssl) kept2)
        ]
      ]

  -- A scope that acquires a resource, if it can, and releases it at its end.
  scope-Leaves :
      (r : ℕ → Resource) (got : Option ℕ) (message : Bytes) (release : ℕ → W → W)
      (inner : ℕ → Reply W) (w : W) (rs : List Resource)
      → held w ≡ acquired r got rs
      → ((n : ℕ) (v : W) → held v ≡ r n ∷ rs → held (release n v) ≡ rs)
      → ((n : ℕ) → held w ≡ r n ∷ rs → Leaves (r n ∷ rs) (inner n))
      → Leaves rs
          (elim got [ none ↦ some (inl message, w) | some n ↦ finally (release n) (inner n) ])
  scope-Leaves r none message release inner w rs h law run = (inl message, w, refl, h)
  scope-Leaves r (some n) message release inner w rs h law run =
      finally-Leaves (r n) rs (release n) (inner n) (law n) (run n h)

  with_ssl-Leaves :
      (fd ctx : ℕ) (host request : Bytes) (w : W)
      → Leaves (held w) (with_ssl net fuel fd ctx host request w)
  unfolding with_ssl
  with_ssl-Leaves fd ctx host request w =
      let w' = (net.ssl_new w ctx).1 in
      scope-Leaves ssl_object (net.ssl_new w ctx).0 (bytes "SSL_new failed")
        (λ ssl v. net.ssl_free (net.ssl_shutdown v ssl) ssl)
        (λ ssl. talk_ssl net fuel fd ssl host request w') w' (held w) (doc.on_ssl_new w ctx)
        (λ ssl v h.
          doc.on_ssl_free (net.ssl_shutdown v ssl) ssl (held w) (doc.on_shutdown v ssl ∙ h))
        (λ ssl h.
          subst (λ rs. Leaves rs (talk_ssl net fuel fd ssl host request w')) h
            (talk_ssl-Leaves fd ssl host request w'))

  post_ssl-Leaves :
      (fd : ℕ) (host request : Bytes) (w : W)
      → Leaves (held w) (post_ssl net fuel fd host request w)
  unfolding post_ssl
  post_ssl-Leaves fd host request w =
      let w' = (net.ssl_ctx_new w).1 in
      scope-Leaves ssl_context (net.ssl_ctx_new w).0 (bytes "SSL_CTX_new failed")
        (λ ctx v. net.ssl_ctx_free v ctx) (λ ctx. with_ssl net fuel fd ctx host request w') w'
        (held w) (doc.on_ctx_new w) (λ ctx v h. doc.on_ctx_free v ctx (held w) h)
        (λ ctx h.
          subst (λ rs. Leaves rs (with_ssl net fuel fd ctx host request w')) h
            (with_ssl-Leaves fd ctx host request w'))

  with_socket-Leaves :
      (fd : ℕ) (target : Target) (timeout_s : ℤ) (request : Bytes) (w : W)
      → Leaves (held w) (with_socket net fuel fd target timeout_s request w)
  unfolding with_socket
  with_socket-Leaves fd target timeout_s request w =
      let w0 = net.set_timeout w fd timeout_s in
      let w' = (net.connect w0 fd).1 in
      let kept : held w' ≡ held w = doc.on_connect w0 fd ∙ doc.on_timeout w fd timeout_s in
      elim (Option-cases (net.connect w0 fd).0) [
        | inr (what, e) ↦ rw (with_socket, e) (_, w', refl, kept)
        | inl e ↦ elim (Bool-cases target.use_ssl) [
          | inl secure ↦
              rw (with_socket, e, secure)
                (subst (λ rs. Leaves rs (post_ssl net fuel fd target.host request w')) kept
                  (post_ssl-Leaves fd target.host request w'))
          | inr clear ↦
              rw (with_socket, e, clear)
                (subst (λ rs. Leaves rs (post_plain net fuel fd request w')) kept
                  (post_plain-Leaves fd request w'))
        ]
      ]

  with_address-Leaves :
      (target : Target) (timeout_s : ℤ) (request : Bytes) (w : W)
      → Leaves (held w) (with_address net fuel target timeout_s request w)
  unfolding with_address
  with_address-Leaves target timeout_s request w =
      let w' = (net.socket w).1 in
      scope-Leaves descriptor (net.socket w).0 (bytes "socket() failed") (λ fd v. net.close v fd)
        (λ fd. with_socket net fuel fd target timeout_s request w') w' (held w) (doc.on_socket w)
        (λ fd v h. doc.on_close v fd (held w) h)
        (λ fd h.
          subst (λ rs. Leaves rs (with_socket net fuel fd target timeout_s request w')) h
            (with_socket-Leaves fd target timeout_s request w'))

  -- Where the calls do as documented and every response ends within `fuel` reads: a request comes back
  -- with a response or a message, whatever fails and over SSL or not, and by then the client has released
  -- all that it acquired, the last acquired first.
  pub exchange-releases :
      (w : W) (target : Target) (timeout_s : ℤ) (request : Bytes)
      → (answer : Bytes ⊎ List Bytes) × (w' : W) × (exchange net fuel w target timeout_s request
          ≡ some (answer, w'))
        × (held w' ≡ held w)
  unfolding exchange
  exchange-releases w target timeout_s request =
      let resolved = net.getaddrinfo w target.host (to_string target.port) in
      let law = doc.on_getaddrinfo w target.host (to_string target.port) in
      elim (Bool-cases resolved.0) [
        | inr failed ↦ rw (exchange, failed) (_, resolved.1, refl, ground (arith, law, failed))
        | inl found ↦
            let holds : held resolved.1 ≡ address ∷ held w = ground (arith, law, found) in
            rw (exchange, found)
              (finally-Leaves address (held w) net.freeaddrinfo
                (with_address net fuel target timeout_s request resolved.1)
                (λ v h. doc.on_freeaddrinfo v (held w) h)
                (subst (λ rs. Leaves rs (with_address net fuel target timeout_s request resolved.1))
                  holds (with_address-Leaves target timeout_s request resolved.1)))
      ]
