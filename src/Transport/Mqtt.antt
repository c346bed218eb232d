-- ===== src/Transport/Mqtt.antt =====
-- roboserver/mqtt_server: who may read which topic (OnACLCheck of acl_hook.go). How the broker calls
-- the hook is not part of the repository.
pub mod Reading
pub mod Protocol
use robomesh.Prelude.{Bool, true, ◌&&◌, Text, codes, text_eq, if◌then◌else◌}
use robomesh.Prelude.Bytes.{has_prefix, has_suffix, trim_prefix, trim_suffix}

-- The robot of a topic between a prefix and a suffix.
unfoldable pub between : Text → Text → Text → Text
unfolding trim_prefix trim_suffix
between pre post topic = trim_suffix (trim_prefix topic pre) post

unfoldable pub on_acl_check : Text → Text → Bool → Bool
unfolding has_prefix has_suffix between
on_acl_check client_id topic write =
    if write
    then true
    else (if has_prefix topic (codes "robomesh/auth/") && has_suffix topic (codes "/response")
        then text_eq (between (codes "robomesh/auth/") (codes "/response") topic) client_id
        else (if has_prefix topic (codes "robomesh/heartbeat/")
              && has_suffix topic (codes "/response")
            then text_eq (between (codes "robomesh/heartbeat/") (codes "/response") topic) client_id
            else (if has_prefix topic (codes "robomesh/to_robot/")
                then text_eq (trim_prefix topic (codes "robomesh/to_robot/")) client_id
                else true)))
