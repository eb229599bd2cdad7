-- ===== src/Charmbits/ElasticsearchRelation.antt =====
-- charmbits/elasticsearchrelation: the addresses of elasticsearch servers.
use gocharm.Base.{String, List, if◌then◌else◌, Act, Result, ok}
use gocharm.Base.Dict.{Dict}
use gocharm.Base.Texts.{is_empty}
use gocharm.Charmbits.HttpRelation.{attr, join_host_port}
use gocharm.Charmbits.SimpleRelation.{Requirer, strings}
use gocharm.Hook.Context.{Tools}

unfoldable pub unit_address : Dict String → Result String
unit_address vals =
    let host = attr "host" vals in
    let port = attr "port" vals in
    if is_empty host
    then ok ""
    else ok (join_host_port host (if is_empty port then "9200" else port))

unfoldable pub addresses : {W : Type 0} → Tools W → Requirer → Act W (List String)
addresses tools req = strings tools req unit_address
