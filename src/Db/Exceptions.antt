-- ===== src/Db/Exceptions.antt =====
-- src/db/exceptions: the three classes that the requests throw, with their messages.
use ironhide.Base.Result.{Error}
use ironhide.Base.Result as Result
use ironhide.Base.Text.{Text, c_str}

-- ios_base::failure, logic_failure::endpoint_not_found and logic_failure::query_ambiguous, each
-- with its string `err`
data Exception : Type 0 where
  failure endpoint_not_found query_ambiguous : Text → Exception

-- The methods `what`.
unfoldable what : Exception → Text
what (failure err) = c_str err
what (endpoint_not_found err) = c_str err
what (query_ambiguous err) = c_str err

-- What the rest of the development keeps of an exception.
unfoldable error_of : Exception → Error
error_of (failure err) = Result.failure
error_of (endpoint_not_found err) = Result.endpoint_not_found
error_of (query_ambiguous err) = Result.query_ambiguous
