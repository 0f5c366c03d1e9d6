-- ===== src/ResponseHeader/Adding.antt =====
-- What is kept to add to responses (response/header/header.go).
use goto.Prelude.{
  ◌≡◌, refl, ap, ◌∙◌, arith, ◌&&◌, List, [], ◌∷◌, ◌++◌, if◌then◌else◌, Text, codes, text_eq, ◌==◌,
  eq_iff,
}
use goto.Prelude.Dict.{get-put, get_empty}
use goto.Params.Mux.{Request, get_string_param}
use goto.Params.Port.{port}
use goto.ResponseHeader.{
  HeaderMap, ResponseHeaders, values_of, append_value, to_add, add_response_header,
  remove_response_header, clear_response_header,
}

pub data Call : Type 0 where
  adds : Request → Call
  removes : Request → Call
  clears : Request → Call

unfoldable pub run_calls : List Call → ResponseHeaders → ResponseHeaders
run_calls [] s = s
run_calls (adds r ∷ cs) s = run_calls cs (add_response_header r s).0
run_calls (removes r ∷ cs) s = run_calls cs (remove_response_header r s).0
run_calls (clears r ∷ cs) s = run_calls cs (clear_response_header r s)

abbrev one_added : Text → Text → Request → List Text → List Text
one_added p h r vs =
    let header = get_string_param r (codes "header") in
    if header.1 && (port r == p && header.0 == h)
    then vs ++ (get_string_param r (codes "value")).0 ∷ []
    else vs

-- The values that calls leave for a port and a header.
unfoldable pub values_added : Text → Text → List Call → List Text → List Text
values_added p h [] vs = vs
values_added p h (adds r ∷ cs) vs = values_added p h cs (one_added p h r vs)
values_added p h (removes r ∷ cs) vs = values_added p h cs vs
values_added p h (clears r ∷ cs) vs = values_added p h cs (if port r == p then [] else vs)

pub values_of-append_value :
    (h k v : Text) (m : HeaderMap)
    → values_of k (append_value h v m) ≡ (if h == k then values_of k m ++ v ∷ [] else values_of k m)
unfolding append_value values_of
values_of-append_value h k v m = ground (arith, eq_iff h k, get-put h k (values_of h m ++ v ∷ []) m)

values_of_empty : (h : Text) → values_of h [] ≡ []
unfolding values_of
values_of_empty h = ground (arith, get_empty {V = List Text} h)

module _ (p h : Text) where
  add_response_header-values :
      (r : Request) (s : ResponseHeaders)
      → values_of h (to_add p (add_response_header r s).0)
        ≡ one_added p h r (values_of h (to_add p s))
  unfolding add_response_header to_add
  add_response_header-values r s =
      let header = get_string_param r (codes "header") in
      let v = (get_string_param r (codes "value")).0 in
      ground (
        arith,
        get-put (port r) p (append_value header.0 v (to_add (port r) s)) s.to_add_by_port,
        eq_iff (port r) p,
        eq_iff header.0 h,
        values_of-append_value header.0 h v (to_add (port r) s),
      )

  remove_response_header-values :
      (r : Request) (s : ResponseHeaders)
      → values_of h (to_add p (remove_response_header r s).0) ≡ values_of h (to_add p s)
  unfolding remove_response_header to_add
  remove_response_header-values r s = ground arith

  clear_response_header-values :
      (r : Request) (s : ResponseHeaders)
      → values_of h (to_add p (clear_response_header r s))
        ≡ (if port r == p then [] else values_of h (to_add p s))
  unfolding clear_response_header to_add
  clear_response_header-values r s =
      ground (arith, get-put (port r) p [] s.to_add_by_port, eq_iff (port r) p, values_of_empty h)

  -- After any calls, the values to add for a port and a header are those that were added for them since the port
  -- was last cleared, in this order, and removing a header takes none away.
  pub run_calls-values :
      (cs : List Call) (s : ResponseHeaders)
      → values_of h (to_add p (run_calls cs s)) ≡ values_added p h cs (values_of h (to_add p s))
  unfolding run_calls values_added
  run_calls-values [] s = refl
  run_calls-values (adds r ∷ cs) s =
      run_calls-values cs (add_response_header r s).0
      ∙ ap (values_added p h cs) (add_response_header-values r s)
  run_calls-values (removes r ∷ cs) s =
      run_calls-values cs (remove_response_header r s).0
      ∙ ap (values_added p h cs) (remove_response_header-values r s)
  run_calls-values (clears r ∷ cs) s =
      run_calls-values cs (clear_response_header r s)
      ∙ ap (values_added p h cs) (clear_response_header-values r s)
