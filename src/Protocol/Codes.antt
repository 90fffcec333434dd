-- ===== src/Protocol/Codes.antt =====
-- The names of the operation codes, `String` of server/protocol/handler.go.
use xmongodb.Common.{ℕ, ◌==◌, if◌then◌else◌}
use xmongodb.Bytes.{Bytes}
use xmongodb.RecordId.Text.{codes}

unfoldable pub op_code_name : ℕ → Bytes
op_code_name code =
    if code == 1
    then codes "OP_REPLY"
    else if code == 2001
    then codes "OP_UPDATE"
    else if code == 2002
    then codes "OP_INSERT"
    else if code == 2004
    then codes "OP_QUERY"
    else if code == 2005
    then codes "OP_GET_MORE"
    else if code == 2006
    then codes "OP_DELETE"
    else if code == 2007
    then codes "OP_KILL_CURSORS"
    else if code == 2010
    then codes "OP_COMMAND"
    else if code == 2011
    then codes "OP_COMMAND_REPLY"
    else if code == 2013
    then codes "OP_MSG"
    else codes "UNKNOWN"
