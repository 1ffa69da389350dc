-- ===== src/Middleware/Cors.antt =====
-- internal/middleware/cors.go: the headers that allow other origins, and the answer to OPTIONS.
use nexo_im.Base.{Text, codes, ◌=ₜ◌, Bool, List, [], ◌∷◌}

unfoldable pub cors_headers : List (Text × Text)
cors_headers =
    (codes "Access-Control-Allow-Origin", codes "*")
    ∷ ((codes "Access-Control-Allow-Methods", codes "GET, POST, PUT, DELETE, OPTIONS")
        ∷ ((
          codes "Access-Control-Allow-Headers",
          codes
              "Origin, Content-Type, Content-Length, Accept-Encoding, X-CSRF-Token, Authorization, X-Token, Ignore-Auth, X-Service-Name, X-Timestamp, X-Signature, X-User-Id, X-Platform-Id, Trace-Id, X-Trace-Id",
        )
            ∷ ((
              codes "Access-Control-Expose-Headers",
              codes
                  "Content-Length, Access-Control-Allow-Origin, Access-Control-Allow-Headers, Trace-Id, X-Trace-Id",
            )
                ∷ ((codes "Access-Control-Allow-Credentials", codes "true") ∷ []))))

-- Whether the request ends here, with status 204.
unfoldable pub is_preflight : Text → Bool
is_preflight method = method =ₜ codes "OPTIONS"
