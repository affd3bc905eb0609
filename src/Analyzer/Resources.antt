-- ===== src/Analyzer/Resources.antt =====
-- What the HTTP client of the text analyzer acquires, and what its calls do to it
-- (plugins/llm_text_analyzer_plugin.cpp).
use cpp20_workflow_engine.Shared.{ℕ, ◌≡◌, Option, none, some, List, ◌∷◌, if◌then◌else◌, Bytes}
use cpp20_workflow_engine.Shared.Int.{ℤ}
use cpp20_workflow_engine.Analyzer.Connection.{Network, read_rounds}

pub data Resource : Type 0 where
  address : Resource
  descriptor : ℕ → Resource
  ssl_context : ℕ → Resource
  ssl_object : ℕ → Resource

abbrev pub acquired : (ℕ → Resource) → Option ℕ → List Resource → List Resource
acquired r none rs = rs
acquired r (some n) rs = r n ∷ rs

-- What the calls do to the resources that a thread holds, the last acquired first; and that a response
-- ends within `fuel` reads.
pub record Documented {W : Type 0} (net : Network W) (fuel : ℕ) (held : W → List Resource)
    : Type 0 where
  pub on_getaddrinfo :
      (w : W) (host port : Bytes)
      → held (net.getaddrinfo w host port).1
        ≡ (if (net.getaddrinfo w host port).0 then address ∷ held w else held w)
  pub on_freeaddrinfo :
      (w : W) (rs : List Resource) → held w ≡ address ∷ rs → held (net.freeaddrinfo w) ≡ rs
  pub on_socket : (w : W) → held (net.socket w).1 ≡ acquired descriptor (net.socket w).0 (held w)
  pub on_close :
      (w : W) (fd : ℕ) (rs : List Resource)
      → held w ≡ descriptor fd ∷ rs
      → held (net.close w fd) ≡ rs
  pub on_timeout : (w : W) (fd : ℕ) (s : ℤ) → held (net.set_timeout w fd s) ≡ held w
  pub on_connect : (w : W) (fd : ℕ) → held (net.connect w fd).1 ≡ held w
  pub on_write : (w : W) (fd : ℕ) (s : Bytes) → held (net.write w fd s).1 ≡ held w
  pub on_read : (w : W) (fd : ℕ) → held (net.read w fd).1 ≡ held w
  pub on_ctx_new :
      (w : W) → held (net.ssl_ctx_new w).1 ≡ acquired ssl_context (net.ssl_ctx_new w).0 (held w)
  pub on_ctx_free :
      (w : W) (ctx : ℕ) (rs : List Resource)
      → held w ≡ ssl_context ctx ∷ rs
      → held (net.ssl_ctx_free w ctx) ≡ rs
  pub on_ssl_new :
      (w : W) (ctx : ℕ)
      → held (net.ssl_new w ctx).1 ≡ acquired ssl_object (net.ssl_new w ctx).0 (held w)
  pub on_set_up : (w : W) (ssl fd : ℕ) (host : Bytes) → held (net.ssl_set_up w ssl fd host) ≡ held w
  pub on_ssl_connect : (w : W) (ssl : ℕ) → held (net.ssl_connect w ssl).1 ≡ held w
  pub on_ssl_write : (w : W) (ssl : ℕ) (s : Bytes) → held (net.ssl_write w ssl s).1 ≡ held w
  pub on_ssl_read : (w : W) (ssl : ℕ) → held (net.ssl_read w ssl).1 ≡ held w
  pub on_shutdown : (w : W) (ssl : ℕ) → held (net.ssl_shutdown w ssl) ≡ held w
  pub on_ssl_free :
      (w : W) (ssl : ℕ) (rs : List Resource)
      → held w ≡ ssl_object ssl ∷ rs
      → held (net.ssl_free w ssl) ≡ rs
  pub read_ends :
      (w : W) (fd : ℕ)
      → (reads : List Bytes) × (w' : W) × (read_rounds net (λ v. net.read v fd) fuel w
          ≡ some (reads, w'))
  pub ssl_read_ends :
      (w : W) (ssl : ℕ)
      → (reads : List Bytes) × (w' : W) × (read_rounds net (λ v. net.ssl_read v ssl) fuel w
          ≡ some (reads, w'))
