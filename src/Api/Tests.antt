-- ===== src/Api/Tests.antt =====
-- A router that takes the first route that fits, and an instance of the theorem.
use opsup.Prelude.{◌≡◌, refl, none, some, [], ◌∷◌, codes}
use opsup.Api.Calls.{of_files, delete_file, server_request, file_request, auth_request, request}
use opsup.Api.Reaching.{Dispatch, IsRouter, fitting, params, Reaches, request-Reaches}

abbrev first : Dispatch
first rs method path = elim (fitting method path rs) [
  | [] ↦ none
  | r ∷ further ↦ some (r, params r.pattern path)
]

first-IsRouter : IsRouter first
first-IsRouter = record { finds = λ rs method path r e. rw (first, e) refl }

all_calls : Unit {0}
unfolding server_request file_request auth_request request
all_calls = tt

asked : (request (of_files (delete_file 12 (codes "/var/log")))).query ≡ some (codes "/var/log")
unfolding all_calls
asked = refl

request-Reaches_example :
    Reaches first first-IsRouter
      (of_files (delete_file 12 (codes "/var/log")))
      (request (of_files (delete_file 12 (codes "/var/log"))))
request-Reaches_example =
    request-Reaches first first-IsRouter (of_files (delete_file 12 (codes "/var/log")))
