-- ===== src/Http/Plain.antt =====
-- A response that is just what can be read from it: it meets what `Http` states.
use static_web.Prelude.{refl, [], ◌∷◌}
use static_web.Http.{Http, View, bytes, stream, with_header, error_view}

abbrev pub plain : Http
plain = record {
  Response = View;
  view = λ r. r;
  set_header = λ n v r. with_header n (v ∷ []) r;
  del_header = λ n r. with_header n [] r;
  set_status = λ c r. record r { status = c };
  set_body = λ b r. record r { body = bytes b };
  set_stream = λ b n r. record r { body = stream b n };
  reset_body = λ r. record r { body = bytes [] };
  error = λ m c r. error_view m c;
  view-set_header = λ n v r. refl;
  view-del_header = λ n r. refl;
  view-set_status = λ c r. refl;
  view-set_body = λ b r. refl;
  view-set_stream = λ b n r. refl;
  view-reset_body = λ r. refl;
  view-error = λ m c r. refl;
}
