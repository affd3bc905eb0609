-- ===== src/Analyzer/Http.antt =====
-- HttpClient of the text analyzer (plugins/llm_text_analyzer_plugin.cpp): URLs, requests, responses and
-- the chunked encoding. The connection is a parameter: what it sends back for a request, read by read.
use cpp20_workflow_engine.Shared.{
  ℕ, zero, suc, ◌+◌, ◌%◌, ◌^◌, ◌⊎◌, inl, inr, Bool, true, false, not, ◌&&◌, ◌||◌, Option, none,
  some, List, [], ◌∷◌, ◌++◌, length, take, drop, ◌==◌, ltb, if◌then◌else◌, Bytes, bytes,
}
use cpp20_workflow_engine.Shared.Int.{ℤ, pos, negsuc, to_string}
use cpp20_workflow_engine.Analyzer.Text.{starts_with, find}

pub record HttpResponse : Type 0 where
  pub status_code : ℤ
  pub body : Bytes

abbrev pub failure : Bytes → HttpResponse
failure message = record { status_code = negsuc 0; body = message }

pub record Target : Type 0 where
  pub use_ssl : Bool
  pub host : Bytes
  pub path : Bytes
  pub port : ℤ

abbrev before_of : Bytes → Bytes → Bytes
unfolding find
before_of mark s = elim (find mark s) [ none ↦ s | some (before, from) ↦ before ]

abbrev path_of : Bytes → Bytes
unfolding find
path_of rest = elim (find (b'/' ∷ []) rest) [ none ↦ b'/' ∷ [] | some (before, from) ↦ from ]

-- The parsing at the head of `post`; `stoi` is the standard library's.
unfoldable pub parse_url : (Bytes → Option ℤ) → Bytes → Bytes ⊎ Target
unfolding starts_with find
parse_url stoi url =
    let with_port : Bool → ℤ → Bytes → Bytes ⊎ Target = λ use_ssl default rest.
      let authority = before_of (b'/' ∷ []) rest in
      elim (find (b':' ∷ []) authority) [
        | none ↦
            inr
              (record { use_ssl = use_ssl; host = authority; path = path_of rest; port = default })
        | some (host, from) ↦ elim (stoi (drop 1 from)) [
          | none ↦ inl (bytes "Invalid port number in URL: " ++ authority)
          | some port ↦
              inr (record { use_ssl = use_ssl; host = host; path = path_of rest; port = port })
        ]
      ] in
    if starts_with (bytes "https://") url
    then with_port true (pos 443) (drop 8 url)
    else if starts_with (bytes "http://") url
    then with_port false (pos 80) (drop 7 url)
    else inl (bytes "Unsupported scheme")

abbrev is_int : ℕ → ℤ → Bool
is_int k (pos n) = n == k
is_int k (negsuc n) = false

abbrev pub crlf : Bytes
crlf = 13 ∷ 10 ∷ []

unfoldable pub build_request : Bytes → Bytes → ℤ → Bytes → Bytes → Bool → Bytes
unfolding to_string
build_request path host port extra_headers body is_ssl =
    let other_port : Bool = not is_ssl && not (is_int 80 port) || is_ssl && not (is_int 443 port) in
    bytes "POST "
    ++ (path
        ++ (bytes " HTTP/1.1"
            ++ (crlf
                ++ (bytes "Host: "
                    ++ (host
                        ++ ((if other_port then b':' ∷ to_string port else [])
                            ++ (crlf
                                ++ (bytes "Content-Type: application/json"
                                    ++ (crlf
                                        ++ (bytes "Content-Length: "
                                            ++ (to_string (pos (length body))
                                                ++ (crlf
                                                    ++ (bytes "Connection: close"
                                                        ++ (crlf
                                                            ++ (extra_headers
                                                            ++ (crlf ++ body))))))))))))))))

-- `size_str` without the extensions of the chunk
unfoldable pub size_text : Bytes → Bytes
unfolding find
size_text size_str = before_of (b';' ∷ []) size_str

-- One round of `unchunk`: the next position and the data of the chunk, `none` when the loop ends.
-- Positions are 64-bit and wrap. `stoul` is the standard library's, in base 16.
unfoldable pub read_chunk : (Bytes → Option ℕ) → Bytes → ℕ → Option (ℕ × Bytes)
unfolding find size_text
read_chunk stoul chunked at =
    if ltb at (length chunked)
    then elim (find crlf (drop at chunked)) [
      | none ↦ none
      | some (size_str, from) ↦ elim (stoul (size_text size_str)) [
        | none ↦ none
        | some chunk_size ↦
            let start : ℕ = at + length size_str + 2 in
            if chunk_size == 0 || ltb (length chunked) ((start + chunk_size) % 2 ^ 64)
            then none
            else some
                (((start + chunk_size) % 2 ^ 64 + 2) % 2 ^ 64, take chunk_size (drop start chunked))
      ]
    ]
    else none

-- The loop of `unchunk`; `none` means that the fuel ran out.
unfoldable pub unchunk_from : (Bytes → Option ℕ) → ℕ → Bytes → ℕ → Bytes → Option Bytes
unfolding read_chunk
unchunk_from stoul zero chunked at result = none
unchunk_from stoul (suc fuel) chunked at result = elim (read_chunk stoul chunked at) [
  | none ↦ some result
  | some (next, data_read) ↦ unchunk_from stoul fuel chunked next (result ++ data_read)
]

unfoldable pub unchunk : (Bytes → Option ℕ) → ℕ → Bytes → Option Bytes
unfolding unchunk_from
unchunk stoul fuel chunked = unchunk_from stoul fuel chunked 0 []

-- What the reads give before the first that gives nothing.
abbrev pub read_all : List Bytes → Bytes
read_all [] = []
read_all ([] ∷ reads) = []
read_all ((c ∷ buf) ∷ reads) = (c ∷ buf) ++ read_all reads

abbrev is_chunked : Bytes → Bool
unfolding find
is_chunked header_section = elim (find (bytes "Transfer-Encoding: chunked") header_section) [
  | some found ↦ true
  | none ↦ elim (find (bytes "transfer-encoding: chunked") header_section) [
    | some found ↦ true
    | none ↦ false
  ]
]

-- The status between the first two blanks, if the first lies on the status line; `none` is an exception.
abbrev read_status : (Bytes → Option ℤ) → Bytes → Bytes → Option ℤ
unfolding find
read_status stoi raw status_line = elim (find (32 ∷ []) raw) [
  | none ↦ some (pos 0)
  | some (before, from) ↦
      if ltb (length before) (length status_line)
      then stoi (before_of (32 ∷ []) (drop 1 from))
      else some (pos 0)
]

unfoldable pub read_response :
    (Bytes → Option ℤ) → (Bytes → Option ℕ) → ℕ → List Bytes → Option HttpResponse
unfolding find unchunk
read_response stoi stoul fuel reads =
    let raw : Bytes = read_all reads in
    if length raw == 0 then some (failure (bytes "Empty response")) else elim (find crlf raw) [
      | none ↦ some (failure (bytes "Malformed response"))
      | some (status_line, from) ↦ elim (read_status stoi raw status_line) [
        | none ↦ some (failure (bytes "Invalid HTTP status code in response"))
        | some status ↦ elim (find (crlf ++ crlf) raw) [
          | none ↦ some (record { status_code = status; body = raw })
          | some (header_section, rest) ↦
              let response_body : Bytes = drop 4 rest in
              if is_chunked header_section
              then elim (unchunk stoul fuel response_body) [
                | none ↦ none
                | some decoded ↦ some (record { status_code = status; body = decoded })
              ]
              else some (record { status_code = status; body = response_body })
        ]
      ]
    ]

-- `post`: `exchange` connects to the host and port, with or without SSL, sends a request and gives the
-- reads of the response, or the message of what failed, and `none` while reads give more than it takes.
-- Over SSL the request is built for port 443.
-- `W` is the state of what lies outside.
unfoldable pub post :
    {W : Type 0}
    → (Bytes → Option ℤ)
    → (Bytes → Option ℕ)
    → (W → Target → ℤ → Bytes → Option ((Bytes ⊎ List Bytes) × W))
    → ℕ
    → W
    → Bytes
    → Bytes
    → Bytes
    → ℤ
    → Option (HttpResponse × W)
unfolding parse_url build_request read_response
post stoi stoul exchange fuel w url headers body timeout_s = elim (parse_url stoi url) [
  | inl message ↦ some (failure message, w)
  | inr target ↦
      let port : ℤ = if target.use_ssl then pos 443 else target.port in
      let request = build_request target.path target.host port headers body target.use_ssl in
      elim (exchange w target timeout_s request) [
        | none ↦ none
        | some (outcome, after) ↦ elim outcome [
          | inl message ↦ some (failure message, after)
          | inr reads ↦ elim (read_response stoi stoul fuel reads) [
            | none ↦ none
            | some response ↦ some (response, after)
          ]
        ]
      ]
]
