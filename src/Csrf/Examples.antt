-- ===== src/Csrf/Examples.antt =====
-- The theorems on the check at concrete requests.
use rust_panel.Prelude.{[]}
use rust_panel.Csrf.Origin.{IsHost, Evidence, by_origin, verdict, check_csrf-origin}
use rust_panel.Csrf.{
  Headers, check_csrf, has_session_cookie, codes, post, split_on, trim, starts_with,
}
use rust_panel.Prelude.{refl, none, some, true, inl, codes, ◌≡◌, starts_with}

abbrev request : Headers
request = record {
  method = post;
  cookie = some (codes "lang=en; token=abc");
  host = some (codes "panel.example:8443");
  origin = some (codes "https://Panel.example:8443");
  referer = none;
}

carries : has_session_cookie request ≡ true
unfolding has_session_cookie split_on trim starts_with
carries = refl

plain : IsHost (codes "Panel.example:8443")
plain = (refl, refl)

sent : Evidence request (some (codes "Panel.example:8443"))
sent = by_origin plain (record {
  scheme = codes "https://";
  rest = [];
  known = inl refl;
  path = inl refl;
  solid = refl;
  sent = refl;
})

check_csrf-origin_example :
    check_csrf request ≡ verdict (some (codes "Panel.example:8443")) (codes "panel.example:8443")
check_csrf-origin_example =
    check_csrf-origin request (some (codes "Panel.example:8443")) (codes "panel.example:8443") refl
      carries refl sent
