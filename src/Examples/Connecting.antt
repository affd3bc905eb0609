-- ===== src/Examples/Connecting.antt =====
-- A request of the text analyzer over SSL, on a network that answers with one read.
use cpp20_workflow_engine.Shared.{
  ◌≡◌, ◌⊎◌, inr, refl, Bool, true, false, none, some, List, [], ◌∷◌, Bytes, bytes,
}
use cpp20_workflow_engine.Shared.Int.{pos}
use cpp20_workflow_engine.Analyzer.Http.{Target}
use cpp20_workflow_engine.Analyzer.Connection.{Network, read_rounds, exchange}
use cpp20_workflow_engine.Analyzer.Resources.{
  Resource, address, descriptor, ssl_context, ssl_object, Documented,
}
use cpp20_workflow_engine.Analyzer.Releases.{exchange-releases}

-- What is held, and whether the response is still to come.
abbrev World : Type 0
World = List Resource × Bool

abbrev drop_last : World → World
drop_last ([], b) = ([], b)
drop_last (r ∷ rs, b) = (rs, b)

abbrev take_response : World → Bytes × World
take_response (rs, true) = (bytes "HTTP/1.1 200 OK", (rs, false))
take_response (rs, false) = ([], (rs, false))

abbrev network : Network World
network = record {
  getaddrinfo = λ (rs, b) host port. (true, (address ∷ rs, b));
  freeaddrinfo = λ w. drop_last w;
  socket = λ (rs, b). (some 3, (descriptor 3 ∷ rs, b));
  set_timeout = λ w fd s. w;
  connect = λ w fd. (none, w);
  close = λ w fd. drop_last w;
  write = λ w fd s. (true, w);
  read = λ w fd. take_response w;
  ssl_ctx_new = λ (rs, b). (some 1, (ssl_context 1 ∷ rs, b));
  ssl_ctx_free = λ w ctx. drop_last w;
  ssl_new = λ (rs, b) ctx. (some 2, (ssl_object 2 ∷ rs, b));
  ssl_set_up = λ w ssl fd host. w;
  ssl_connect = λ w ssl. (true, w);
  ssl_write = λ w ssl s. (true, w);
  ssl_read = λ w ssl. take_response w;
  ssl_shutdown = λ w ssl. w;
  ssl_free = λ w ssl. drop_last w;
}

drop_last-held :
    (w : World) (r : Resource) (rs : List Resource) → w.0 ≡ r ∷ rs → (drop_last w).0 ≡ rs
drop_last-held ([], b) r rs h = cc
drop_last-held (x ∷ xs, b) r rs h = cc

take_response-held : (w : World) → (take_response w).1.0 ≡ w.0
take_response-held (rs, true) = refl
take_response-held (rs, false) = refl

ends_soon :
    (w : World)
    → (reads : List Bytes) × (w' : World) × (read_rounds network (λ v. take_response v) 2 w
        ≡ some (reads, w'))
unfolding read_rounds
ends_soon (rs, true) = (_, _, refl)
ends_soon (rs, false) = (_, _, refl)

network-Documented : Documented network 2 (λ w. w.0)
network-Documented = record {
  on_getaddrinfo = λ w host port. refl;
  on_freeaddrinfo = λ w rs h. drop_last-held w address rs h;
  on_socket = λ w. refl;
  on_close = λ w fd rs h. drop_last-held w (descriptor fd) rs h;
  on_timeout = λ w fd s. refl;
  on_connect = λ w fd. refl;
  on_write = λ w fd s. refl;
  on_read = λ w fd. take_response-held w;
  on_ctx_new = λ w. refl;
  on_ctx_free = λ w ctx rs h. drop_last-held w (ssl_context ctx) rs h;
  on_ssl_new = λ w ctx. refl;
  on_set_up = λ w ssl fd host. refl;
  on_ssl_connect = λ w ssl. refl;
  on_ssl_write = λ w ssl s. refl;
  on_ssl_read = λ w ssl. take_response-held w;
  on_shutdown = λ w ssl. refl;
  on_ssl_free = λ w ssl rs h. drop_last-held w (ssl_object ssl) rs h;
  read_ends = λ w fd. ends_soon w;
  ssl_read_ends = λ w ssl. ends_soon w;
}

abbrev secure : Target
secure = record { use_ssl = true; host = bytes "h"; path = bytes "/"; port = pos 443 }

exchange-releases_example :
    (answer : Bytes ⊎ List Bytes) × (w' : World) × (exchange network 2
        ([], true)
        secure
        (pos 120)
        (bytes "POST")
      ≡ some (answer, w'))
    × (w'.0 ≡ [])
exchange-releases_example =
    exchange-releases network 2 (λ w. w.0) network-Documented ([], true) secure (pos 120)
      (bytes "POST")

-- The response of the example, with nothing left held.
exchanged :
    exchange network 2 ([], true) secure (pos 120) (bytes "POST")
    ≡ some (inr (bytes "HTTP/1.1 200 OK" ∷ []), ([], false))
unfolding exchange
exchanged = refl
