-- ===== src/Sockets/Tests.antt =====
-- A client that both tables list from both ends, beside a probe of the process's own.
use v2pro_dock.Base.{
  ℕ, String, ◌≡◌, refl, ◌≢◌, ◌⊎◌, Bool, true, ◌&&◌, ◌||◌, Option, none, some, List, [], ◌∷◌, arith,
  str_eq, nat_eq, if◌then◌else◌, nat_equal, string_equal,
}
use v2pro_dock.Base.Dict.{lookup, insert, delete}
use v2pro_dock.Sockets.{
  count_rows, count_row, touches, owned_from, connection, endpoint_string, TextTools, Descriptor,
  target, gone, Row, Endpoint, foreign_established, proc_socket_evidence,
}
use v2pro_dock.Sockets.Evidence.{IsAnswer, IsUnknown, proc_socket_evidence-IsAnswer}

-- Fields and numbers of the rows below.
abbrev split_row : String → List String
split_row s =
    if str_eq s "sl"
    then "sl" ∷ []
    else if str_eq s "client"
    then "0:" ∷ "0100007F:1F90" ∷ "0200007F:C350" ∷ "01" ∷ "" ∷ "" ∷ "" ∷ "" ∷ "" ∷ "11" ∷ []
    else if str_eq s "client6"
    then "0:" ∷ "0000000000000000FFFF00000200007F:C350" ∷ "0000000000000000FFFF00000100007F:1F90"
      ∷ "01" ∷ "" ∷ "" ∷ "" ∷ "" ∷ "" ∷ "12" ∷ []
    else if str_eq s "probe"
    then "1:" ∷ "0100007F:C351" ∷ "0100007F:1F90" ∷ "01" ∷ "" ∷ "" ∷ "" ∷ "" ∷ "" ∷ "77" ∷ []
    else []

abbrev hex : ℕ → String → Option ℕ
hex bits s =
    if str_eq s "1F90"
    then some 8080
    else if str_eq s "C350"
    then some 50_000
    else if str_eq s "C351"
    then some 50_001
    else if str_eq s "01"
    then some 1
    else none

abbrev decimal : ℕ → String
decimal n = if nat_eq n 8080 then "8080" else if nat_eq n 50_000 then "50000" else "50001"

-- The order of the texts of the ends below.
abbrev after : String → String → Bool
after a b =
    (str_eq a "0200007F:50000" && str_eq b "0100007F:8080")
    || (str_eq a "0100007F:8080" && str_eq b "0100007F:50001")

abbrev tools : TextTools
tools = record {
  fields = split_row;
  to_upper = λ s. s;
  parse_hex = hex;
  itoa = decimal;
  greater = after;
}

abbrev tables : String → Option (List String)
tables path =
    if str_eq path "/proc/net/tcp"
    then some ("sl" ∷ "client" ∷ "probe" ∷ "" ∷ [])
    else some ("sl" ∷ "client6" ∷ [])

abbrev descriptors : Option (List Descriptor)
descriptors = some (target "/dev/null" ∷ gone ∷ target "socket:[77]" ∷ [])

abbrev listener : Endpoint
listener = record { addr = "0100007F"; port = 8080 }

abbrev client : Endpoint
client = record { addr = "0200007F"; port = 50_000 }

abbrev prober : Endpoint
prober = record { addr = "0100007F"; port = 50_001 }

abbrev rows : List Row
rows =
    record { local = listener; remote = client; state = "01"; inode = "11" }
    ∷ record { local = client; remote = listener; state = "01"; inode = "12" }
    ∷ record { local = prober; remote = listener; state = "01"; inode = "77" }
    ∷ record { local = listener; remote = prober; state = "01"; inode = "13" }
    ∷ []

-- Two rows are the client's, and two are a probe's, of which one is owned.
one_client : foreign_established tools rows (("77", true) ∷ []) 8080 ≡ 1
unfolding foreign_established count_rows count_row touches owned_from connection endpoint_string
    lookup insert delete
one_client = refl

proc_socket_evidence-IsAnswer_example :
    ((proc_socket_evidence tools true descriptors tables 8080 ≡ none)
      × IsUnknown tools descriptors tables)
    ⊎ IsAnswer tools descriptors tables 8080
        (proc_socket_evidence tools true descriptors tables 8080)
proc_socket_evidence-IsAnswer_example =
    proc_socket_evidence-IsAnswer tools descriptors tables 8080 positive
  where
    positive : ◌≢◌ {A = ℕ} 8080 0
    positive = ground arith
