-- ===== src/Tunnel/Tests.antt =====
-- The theorems on the tunnel of app/src/remote/proxy_tunnel.rs at concrete requests.
use limux.Prelude.{
  none, ℕ, ◌≡◌, refl, some, Bool, true, false, List, [], ◌∷◌, ◌++◌, length, take, not, ◌&&◌, leb,
  each_below, each_below-at, decimal, ◌↔◌, Text, text, string, object, field, no_field, arith,
}
use limux.Rpc.Client.{Answer, done, failed, timeout}
use limux.Tunnel.Stream.{TcpStream, ok}
use limux.Tunnel.Socks.{socks5_handshake, no_auth}
use limux.Tunnel.Handshake.{Target, domain, greeting, request, socks5_handshake-request}
use limux.Tunnel.Connect.{read_head, ends_head, http_connect_handshake}
use limux.Tunnel.Bounds.{Leaves, socks5_handshake-Leaves}
use limux.Tunnel.Head.{IsHead, IsRequestHead, IsHead-IsRequestHead, read_head_iff}
use limux.Tunnel.Authority.{request_head, http_connect_handshake-request}
use limux.Tunnel.Session.{client_closed, handle_connection}
use limux.Tunnel.Cleanup.{CleansUp, succeeded, handle_connection-CleansUp}

abbrev site : Target
site = domain (text "a.b")

socks5_handshake-request_example :
    socks5_handshake (record {
      incoming = greeting (0 ∷ 2 ∷ []) (request 1 site 8080 (1 ∷ 2 ∷ []));
      sent = [];
      takes = true;
    })
    ≡ (ok (text "a.b", 8080), record { incoming = 1 ∷ 2 ∷ []; sent = no_auth; takes = true })
socks5_handshake-request_example =
    socks5_handshake-request (0 ∷ 2 ∷ []) 1 site 8080 (1 ∷ 2 ∷ []) [] refl

abbrev browser : TcpStream
browser = record { incoming = greeting (0 ∷ []) (request 2 site 80 []); sent = []; takes = true }

socks5_handshake-Leaves_example : Leaves 519 browser.incoming (socks5_handshake browser).1.incoming
socks5_handshake-Leaves_example = socks5_handshake-Leaves browser refl

-- The tests of `IsHead` on a head of known bytes.
head_check : List ℕ → Bool
head_check head =
    ends_head head
    && leb (length head) 8193
    && each_below (λ k. not (ends_head (take k head))) (length head)

open_prefix : (b : Bool) → not b ≡ true → b ≡ false
open_prefix b h = ground arith

head_check-IsHead : (head : List ℕ) → head_check head ≡ true → IsHead head
unfolding head_check
head_check-IsHead head h =
    let f : each_below (λ k. not (ends_head (take k head))) (length head) ≡ true = ground arith in
    (
      ground arith,
      λ k l.
          open_prefix (ends_head (take k head))
            (each_below-at (λ j. not (ends_head (take j head))) (length head) k l f),
      ground arith,
    )

abbrev web_head : List ℕ
web_head = request_head (text "a.b") 443 (13 ∷ 10 ∷ [])

web_head-IsHead : IsHead web_head
unfolding head_check ends_head each_below decimal
web_head-IsHead = head_check-IsHead web_head refl

abbrev web : TcpStream
web = record { incoming = web_head ++ (22 ∷ 3 ∷ []); sent = []; takes = true }

http_connect_handshake-request_example :
    http_connect_handshake web
    ≡ (ok (text "a.b", 443), record { incoming = 22 ∷ 3 ∷ []; sent = []; takes = true })
unfolding decimal
http_connect_handshake-request_example =
    http_connect_handshake-request (text "a.b") 443 (13 ∷ 10 ∷ []) (22 ∷ 3 ∷ []) [] true refl
      (omega arith) refl ((IsHead-IsRequestHead web_head).0 web_head-IsHead)

read_head_iff_example :
    (read_head [] (web_head ++ (22 ∷ [])) ≡ (ok web_head, 22 ∷ []))
    ↔ ((web_head ++ (22 ∷ []) ≡ web_head ++ (22 ∷ [])) × IsRequestHead web_head)
read_head_iff_example = read_head_iff (web_head ++ (22 ∷ [])) web_head (22 ∷ [])

abbrev opened : Text → ℕ → Answer
opened host port = done (object (field (text "stream_id") (string (text "s1")) no_field))

-- The subscription times out, and the stream stays open.
handle_connection-CleansUp_example :
    let (result, calls, s') =
      handle_connection
        (λ v. [])
        (λ bs. bs)
        some
        none
        opened
        (λ s. failed timeout)
        (client_closed ∷ [])
        web in
    CleansUp (succeeded result) calls
handle_connection-CleansUp_example =
    handle_connection-CleansUp (λ v. []) (λ bs. bs) some none opened (λ s. failed timeout)
      (client_closed ∷ []) web
